-- ===== src/Books/Store/Discovery.antt =====
-- What a discovery refresh does to the maps of src/books/book-store.ts.
use mathlib.Core.Path.{subst}
use pok_poly_kalshi.Prelude.{
  ℕ, String, Bool, true, ◌≡◌, sym, Option, none, some, List, [], ◌∷◌, ◌||◌, inl, inr, arith,
}
use pok_poly_kalshi.Prelude.Tests.{if◌then◌else◌, Bool-cases, is_some, text_key, ◌==◌}
use pok_poly_kalshi.Prelude.JsMap.{JsMap, get, set, get-set}
use pok_poly_kalshi.Prelude.JsSet.{has}
use pok_poly_kalshi.Types.{BinaryContract}
use pok_poly_kalshi.Books.Store.{
  BookStore, keep_quotes, ids_of, retain, merge_all, merge_contracts, set_kalshi_contracts,
  set_polymarket_contracts,
}

get-retain :
    (ids : List String) (m : JsMap String BinaryContract) (id : String)
    → get (retain ids m) id ≡ (if has ids id then get m id else none)
unfolding retain get
get-retain ids [] id = ground arith
get-retain ids ((j, c) ∷ m) id = ground (arith, text_key.same_iff j id, get-retain ids m id)

has-merge :
    (ws_only : Bool) (m : JsMap String BinaryContract) (cs : List BinaryContract) (id : String)
    → is_some (get (merge_all ws_only m cs) id) ≡ (is_some (get m id) || has (ids_of cs) id)
unfolding merge_all has
has-merge ws_only m [] id = ground arith
has-merge ws_only m (c ∷ cs) id =
    let v = keep_quotes ws_only (get m c.contract_id) c in
    ground (arith, has-merge ws_only (set m c.contract_id v) cs id, get-set m c.contract_id v id)

has-merged :
    (ws_only : Bool) (m : JsMap String BinaryContract) (cs : List BinaryContract) (id : String)
    → is_some (get (merge_contracts ws_only m cs) id) ≡ has (ids_of cs) id
unfolding merge_contracts
has-merged ws_only m cs id =
    ground (arith, has-merge ws_only (retain (ids_of cs) m) cs id, get-retain (ids_of cs) m id)

-- After a discovery refresh a venue has exactly the contracts that were found.
pub set_contracts-ids :
    (s : BookStore) (cs : List BinaryContract) (id : String)
    → (is_some (get (set_kalshi_contracts s cs).kalshi id) ≡ has (ids_of cs) id)
      × (is_some (get (set_polymarket_contracts s cs).polymarket id) ≡ has (ids_of cs) id)
unfolding set_kalshi_contracts set_polymarket_contracts
set_contracts-ids s cs id = (
  has-merged s.freshness_from_ws_only s.kalshi cs id,
  has-merged s.freshness_from_ws_only s.polymarket cs id,
)

-- The time of an entry.
abbrev pub updated : Option BinaryContract → Option ℕ
updated none = none
updated (some c) = some c.updated_at

keep-updated :
    (old : Option BinaryContract) (c : BinaryContract) (t : ℕ)
    → updated old ≡ some t
    → updated (some (keep_quotes true old c)) ≡ some t
unfolding keep_quotes
keep-updated none c t h = absurd (cc)
keep-updated (some old) c t h = h

merge-updated :
    (m : JsMap String BinaryContract) (cs : List BinaryContract) (id : String) (t : ℕ)
    → updated (get m id) ≡ some t
    → updated (get (merge_all true m cs) id) ≡ some t
unfolding merge_all
merge-updated m [] id t h = h
merge-updated m (c ∷ cs) id t h =
    let v = keep_quotes true (get m c.contract_id) c in
    let next = set m c.contract_id v in
    elim (Bool-cases (c.contract_id == id)) [
      | inl e ↦
          let same = (text_key.same_iff c.contract_id id).0 e in
          let there = subst (λ k. updated (get m k) ≡ some t) (sym same) h in
          merge-updated next cs id t
            (rw (get-set m c.contract_id v id, e) (keep-updated (get m c.contract_id) c t there))
      | inr e ↦ merge-updated next cs id t (rw (get-set m c.contract_id v id, e) h)
    ]

merged-updated :
    (m : JsMap String BinaryContract) (cs : List BinaryContract) (id : String) (t : ℕ)
    → has (ids_of cs) id ≡ true
    → updated (get m id) ≡ some t
    → updated (get (merge_contracts true m cs) id) ≡ some t
unfolding merge_contracts
merged-updated m cs id t found h =
    merge-updated (retain (ids_of cs) m) cs id t (rw (get-retain (ids_of cs) m id, found) h)

-- When freshness comes from the sockets only, a discovery refresh does not make the book of a contract
-- that is there look newer: its time stays what it was.
pub set_contracts-updated :
    (s : BookStore) (cs : List BinaryContract) (id : String) (t : ℕ)
    → s.freshness_from_ws_only ≡ true
    → has (ids_of cs) id ≡ true
    → (updated (get s.kalshi id) ≡ some t
        → updated (get (set_kalshi_contracts s cs).kalshi id) ≡ some t)
      × (updated (get s.polymarket id) ≡ some t
          → updated (get (set_polymarket_contracts s cs).polymarket id) ≡ some t)
unfolding set_kalshi_contracts set_polymarket_contracts
set_contracts-updated s cs id t ws found = (
  λ h. rw ws (merged-updated s.kalshi cs id t found h),
  λ h. rw ws (merged-updated s.polymarket cs id t found h),
)
