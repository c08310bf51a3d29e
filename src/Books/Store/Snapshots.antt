-- ===== src/Books/Store/Snapshots.antt =====
-- What a snapshot of the books changes in src/books/book-store.ts.
use pok_poly_kalshi.Prelude.{String, false, ◌≡◌, refl, List, [], ◌∷◌, some}
use pok_poly_kalshi.Prelude.Tests.{if◌then◌else◌, text_key, ◌==◌, or_default, or_else}
use pok_poly_kalshi.Prelude.JsMap.{get, get-set, get-set_self}
use pok_poly_kalshi.Types.{LegDirection, yes_leg, no_leg, is_yes, BinaryContract, BookLevel}
use pok_poly_kalshi.Execution.LegQuote.{ask_for, bid_for, levels_for}
use pok_poly_kalshi.Books.Store.{
  BookStore, noted, TokenMapping, TokenBookSnapshot, polymarket_update, polymarket_applied,
  polymarket_mapped, apply_polymarket_snapshot,
}

abbrev pub other_side : LegDirection → LegDirection
other_side yes_leg = no_leg
other_side no_leg = yes_leg

abbrev pub bid_levels_for : BinaryContract → LegDirection → List BookLevel
bid_levels_for c direction =
    or_default (if is_yes direction then c.yes_bid_levels else c.no_bid_levels) []

-- The side of the snapshot has its quotes and levels, the other keeps those it had, and the time is the
-- snapshot's. What the snapshot knows of the hash and the tick size is taken over. What names the
-- contract stays.
pub record Shows (snapshot : TokenBookSnapshot) (side : LegDirection)
    (before after : BinaryContract) : Type 0 where
  pub ask : ask_for after side ≡ snapshot.best_ask
  pub bid : bid_for after side ≡ snapshot.best_bid
  pub levels : levels_for after side ≡ snapshot.ask_levels
  pub bid_levels : bid_levels_for after side ≡ snapshot.bid_levels
  pub other_ask : ask_for after (other_side side) ≡ ask_for before (other_side side)
  pub other_bid : bid_for after (other_side side) ≡ bid_for before (other_side side)
  pub other_levels : levels_for after (other_side side) ≡ levels_for before (other_side side)
  pub other_bid_levels :
      bid_levels_for after (other_side side) ≡ bid_levels_for before (other_side side)
  pub time : after.updated_at ≡ snapshot.timestamp
  pub strike : after.strike ≡ before.strike
  pub contract_id : after.contract_id ≡ before.contract_id
  pub expiry : after.expiry_ms ≡ before.expiry_ms
  pub venue : after.venue ≡ before.venue
  pub sequence : after.sequence ≡ before.sequence
  pub yes_token_id : after.yes_token_id ≡ before.yes_token_id
  pub no_token_id : after.no_token_id ≡ before.no_token_id
  pub book_hash : after.book_hash ≡ or_else snapshot.hash before.book_hash
  pub tick_size : after.tick_size ≡ or_else snapshot.tick_size before.tick_size
  pub tick_size_changed_at :
      after.tick_size_changed_at ≡ or_else snapshot.tick_size_changed_at before.tick_size_changed_at

update-Shows :
    (c : BinaryContract) (side : LegDirection) (snapshot : TokenBookSnapshot)
    → Shows snapshot side c (polymarket_update c side snapshot)
unfolding polymarket_update
update-Shows c yes_leg snapshot = record {
  ask = refl;
  bid = refl;
  levels = refl;
  bid_levels = refl;
  other_ask = refl;
  other_bid = refl;
  other_levels = refl;
  other_bid_levels = refl;
  time = refl;
  strike = refl;
  contract_id = refl;
  expiry = refl;
  venue = refl;
  sequence = refl;
  yes_token_id = refl;
  no_token_id = refl;
  book_hash = refl;
  tick_size = refl;
  tick_size_changed_at = refl;
}
update-Shows c no_leg snapshot = record {
  ask = refl;
  bid = refl;
  levels = refl;
  bid_levels = refl;
  other_ask = refl;
  other_bid = refl;
  other_levels = refl;
  other_bid_levels = refl;
  time = refl;
  strike = refl;
  contract_id = refl;
  expiry = refl;
  venue = refl;
  sequence = refl;
  yes_token_id = refl;
  no_token_id = refl;
  book_hash = refl;
  tick_size = refl;
  tick_size_changed_at = refl;
}

-- A Polymarket snapshot of a mapped token shows on the side of the contract that the token stands for:
-- its asks, its bids, their levels, its time, and its hash and tick size where it has them; and the
-- contract is recorded with them. All else of the contract stays, as do the other contracts, the Kalshi
-- books and the mapping of the tokens.
pub apply_polymarket_snapshot-Shows :
    (s : BookStore) (snapshot : TokenBookSnapshot) (m : TokenMapping) (c : BinaryContract)
    → get s.poly_token_to_contract snapshot.token_id ≡ some m
    → get s.polymarket m.contract_id ≡ some c
    → let t = apply_polymarket_snapshot s snapshot in
      ((d : BinaryContract) × (get t.polymarket m.contract_id ≡ some d)
        × Shows snapshot m.side c d
        × (t.recorded ≡ noted d m.side snapshot.timestamp ∷ s.recorded))
      × ((id : String) → (m.contract_id == id) ≡ false → get t.polymarket id ≡ get s.polymarket id)
      × (t.kalshi ≡ s.kalshi)
      × (t.poly_token_to_contract ≡ s.poly_token_to_contract)
unfolding apply_polymarket_snapshot polymarket_mapped polymarket_applied
apply_polymarket_snapshot-Shows s snapshot m c mapped there =
    let d = polymarket_update c m.side snapshot in
    rw (mapped, there)
      (
        (d, get-set_self s.polymarket m.contract_id d, update-Shows c m.side snapshot, refl),
        λ id other. rw (get-set s.polymarket m.contract_id d id, other) refl,
        refl,
        refl,
      )
