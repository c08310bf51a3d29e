-- ===== src/Books/Token/Ordered.antt =====
-- What every book and snapshot of the parser of src/polymarket/client.ts satisfies.
use pok_poly_kalshi.Prelude.{
  ℕ, String, Bool, true, false, ◌≡◌, refl, Option, none, some, List, [], ◌∷◌, map, inl, inr, arith,
}
use pok_poly_kalshi.Prelude.Tests.{Bool-cases, or_default, or_else, text_key, ◌==◌}
use pok_poly_kalshi.Prelude.Lists.{All, All-append}
use pok_poly_kalshi.Prelude.JsMap.{JsMap, get, set, delete}
use pok_poly_kalshi.Prelude.Int.{ℤ, pos, ltb_ℤ, leb_ℤ, ◌<ℤ◌, int_key}
use pok_poly_kalshi.Prelude.Sort.{Sorted, Sorted-sort_by, All-sort_by}
use pok_poly_kalshi.Types.{Number, finite, not_finite}
use pok_poly_kalshi.Books.Store.{TokenBookSnapshot}
use pok_poly_kalshi.Books.Levels.{
  set_level, sorted_levels, offered_levels, goes_after, higher_price, lower_price, as_level,
}
use pok_poly_kalshi.Books.Token.{
  BookLevels, PriceLevel, PriceChange, BookMessage, Parser, Output, book_of, set_levels, snapshot,
  book_event, price_change, best_event, with_tick, apply_metadata, level_change, stored, after_push,
  price_changes, on_token, apply_message, apply_parsed, apply,
}

-- Every size is positive.
abbrev pub Positive : JsMap ℤ ℤ → Type 0
Positive m = All (λ l. pos 0 <ℤ l.1) m

abbrev pub IsSound : BookLevels → Type 0
IsSound b = Positive b.bids × Positive b.asks

-- The bids fall and the asks rise, and every size is positive.
pub record IsOrdered (s : TokenBookSnapshot) : Type 0 where
  pub bids : List (ℤ × ℤ)
  pub asks : List (ℤ × ℤ)
  pub bids_eq : s.bid_levels ≡ map as_level bids
  pub asks_eq : s.ask_levels ≡ map as_level asks
  pub bids_fall : Sorted (goes_after higher_price) bids
  pub asks_rise : Sorted (goes_after lower_price) asks
  pub bids_positive : Positive bids
  pub asks_positive : Positive asks

set-Positive : (m : JsMap ℤ ℤ) (k v : ℤ) → pos 0 <ℤ v → Positive m → Positive (set m k v)
unfolding set
set-Positive [] k v h a = (h, tt)
set-Positive ((j, w) ∷ m) k v h (b, a) = elim (Bool-cases (j == k)) [
  | inl e ↦ rw e (h, a)
  | inr e ↦ rw e (b, set-Positive m k v h a)
]

delete-Positive : (m : JsMap ℤ ℤ) (k : ℤ) → Positive m → Positive (delete m k)
unfolding delete
delete-Positive [] k a = tt
delete-Positive ((j, w) ∷ m) k (b, a) = elim (Bool-cases (j == k)) [
  | inl e ↦ rw e (delete-Positive m k a)
  | inr e ↦ rw e (b, delete-Positive m k a)
]

set_level-Positive : (m : JsMap ℤ ℤ) (p s : Number) → Positive m → Positive (set_level m p s)
unfolding set_level
set_level-Positive m (finite p) (finite s) a = elim (Bool-cases (leb_ℤ s (pos 0))) [
  | inl e ↦ rw e (delete-Positive m p a)
  | inr e ↦ rw e (set-Positive m p s (ground (arith, e)) a)
]
set_level-Positive m (finite p) not_finite a = a
set_level-Positive m not_finite s a = a

set_levels-Positive :
    (m : JsMap ℤ ℤ) (ls : List PriceLevel) → Positive m → Positive (set_levels m ls)
unfolding set_levels
set_levels-Positive m [] a = a
set_levels-Positive m (l ∷ ls) a =
    set_levels-Positive (set_level m l.price l.size) ls (set_level-Positive m l.price l.size a)

level_change-Positive :
    (touches : Bool) (m : JsMap ℤ ℤ) (p s : Option Number)
    → Positive m
    → Positive (level_change touches m p s)
level_change-Positive touches m none s a = a
level_change-Positive touches m (some p) none a = a
level_change-Positive true m (some p) (some s) a = set_level-Positive m p s a
level_change-Positive false m (some p) (some s) a = a

with_tick-IsSound :
    (b : BookLevels) (tick : Option ℤ) (timestamp : ℕ)
    → IsSound b
    → IsSound (with_tick b tick timestamp)
with_tick-IsSound b none timestamp h = h
with_tick-IsSound b (some t) timestamp h = h

apply_metadata-IsSound :
    (b : BookLevels) (hash : Option String) (tick : Option Number) (timestamp : ℕ)
    → IsSound b
    → IsSound (apply_metadata b hash tick timestamp)
unfolding apply_metadata
apply_metadata-IsSound b hash tick timestamp h = with_tick-IsSound _ _ timestamp h

book_event-IsSound :
    (b : BookLevels) (m : BookMessage) (timestamp : ℕ) → IsSound (book_event b m timestamp)
unfolding book_event
book_event-IsSound b m timestamp =
    let cleared : BookLevels = record b {
      bids = [];
      asks = [];
      best_bid_override = none;
      best_ask_override = none;
    } in
    let (bids, asks) = apply_metadata-IsSound cleared m.hash m.tick_size timestamp (tt, tt) in
    (
      set_levels-Positive _ (or_default m.bids []) bids,
      set_levels-Positive _ (or_default m.asks []) asks,
    )

price_change-IsSound : (b : BookLevels) (c : PriceChange) → IsSound b → IsSound (price_change b c)
unfolding price_change
price_change-IsSound b c (bids, asks) = (
  level_change-Positive _ b.bids c.price c.size bids,
  level_change-Positive _ b.asks c.price c.size asks,
)

best_event-IsSound :
    (b : BookLevels) (m : BookMessage) (timestamp : ℕ)
    → IsSound b
    → IsSound (best_event b m timestamp)
unfolding best_event
best_event-IsSound b m timestamp h = apply_metadata-IsSound b m.hash m.tick_size timestamp h

offered-Positive : (m : JsMap ℤ ℤ) → Positive (offered_levels m)
unfolding offered_levels
offered-Positive [] = tt
offered-Positive ((p, s) ∷ m) = elim (Bool-cases (ltb_ℤ (pos 0) s)) [
  | inl e ↦ rw e (ground (arith, e), offered-Positive m)
  | inr e ↦ rw e (offered-Positive m)
]

snapshot-IsOrdered :
    (token : String) (b : BookLevels) (timestamp : ℕ) → IsOrdered (snapshot token b timestamp)
unfolding snapshot sorted_levels
snapshot-IsOrdered token b timestamp = record {
  bids = sorted_levels higher_price b.bids;
  asks = sorted_levels lower_price b.asks;
  bids_eq = refl;
  asks_eq = refl;
  bids_fall =
      Sorted-sort_by (goes_after higher_price) (λ x y h. ground (arith, h)) (offered_levels b.bids);
  asks_rise =
      Sorted-sort_by (goes_after lower_price) (λ x y h. ground (arith, h)) (offered_levels b.asks);
  bids_positive =
      All-sort_by _ (goes_after higher_price) (offered_levels b.bids) (offered-Positive b.bids);
  asks_positive =
      All-sort_by _ (goes_after lower_price) (offered_levels b.asks) (offered-Positive b.asks);
}

-- Every book that the parser keeps has positive sizes.
abbrev pub Sound : Parser → Type 0
Sound books = All (λ entry. IsSound entry.1) books

get-IsSound : (books : Parser) (token : String) → Sound books → IsSound (book_of books token)
unfolding get
get-IsSound [] token a = (tt, tt)
get-IsSound ((k, b) ∷ m) token (h, a) = elim (Bool-cases (k == token)) [
  | inl e ↦ rw e h
  | inr e ↦ rw e (get-IsSound m token a)
]

set-Sound :
    (books : Parser) (token : String) (b : BookLevels)
    → IsSound b
    → Sound books
    → Sound (set books token b)
unfolding set
set-Sound [] token b h a = (h, tt)
set-Sound ((k, c) ∷ m) token b h (g, a) = elim (Bool-cases (k == token)) [
  | inl e ↦ rw e (h, a)
  | inr e ↦ rw e (g, set-Sound m token b h a)
]

-- The parser is sound, and all that it pushed is ordered.
abbrev pub IsGood : Output → Type 0
IsGood out = Sound out.0 × All IsOrdered out.1

stored-IsGood :
    (books : Parser) (token : String) (b : BookLevels) (timestamp : ℕ)
    → IsSound b
    → Sound books
    → IsGood (stored books token b timestamp)
stored-IsGood books token b timestamp h a =
    (set-Sound books token b h a, (snapshot-IsOrdered token b timestamp, tt))

after_push-IsGood :
    (pushed : List TokenBookSnapshot) (out : Output)
    → All IsOrdered pushed
    → IsGood out
    → IsGood (after_push pushed out)
after_push-IsGood pushed (books, more) a (s, b) = (s, All-append IsOrdered pushed more a b)

on_token-IsGood :
    (change : BookLevels → BookLevels) (books : Parser) (token : Option String) (timestamp : ℕ)
    → ((b : BookLevels) → IsSound b → IsSound (change b))
    → Sound books
    → IsGood (on_token change books token timestamp)
on_token-IsGood change books none timestamp keeps a = (a, tt)
on_token-IsGood change books (some token) timestamp keeps a = elim (Bool-cases (token == "")) [
  | inl e ↦ rw e (a, tt)
  | inr e ↦ rw e (
      stored-IsGood books token (change (book_of books token)) timestamp
        (keeps (book_of books token) (get-IsSound books token a)) a)
]

price_changes-IsGood :
    (books : Parser) (cs : List PriceChange) (timestamp : ℕ)
    → Sound books
    → IsGood (price_changes books cs timestamp)
unfolding price_changes
price_changes-IsGood books [] timestamp a = (a, tt)
price_changes-IsGood books (c ∷ cs) timestamp a =
    let b = price_change (book_of books c.asset_id) c in
    let (sound, ordered) =
      stored-IsGood books c.asset_id b timestamp
        (price_change-IsSound (book_of books c.asset_id) c (get-IsSound books c.asset_id a)) a in
    after_push-IsGood (snapshot c.asset_id b timestamp ∷ [])
      (price_changes (set books c.asset_id b) cs timestamp) ordered
      (price_changes-IsGood (set books c.asset_id b) cs timestamp sound)

apply_message-IsGood :
    (books : Parser) (m : BookMessage) (timestamp : ℕ)
    → Sound books
    → IsGood (apply_message books m timestamp)
unfolding apply_message
apply_message-IsGood books m timestamp a =
    let event = or_default m.event_type "" in
    let book =
      on_token-IsGood (λ b. book_event b m timestamp) books m.asset_id timestamp
        (λ b h. book_event-IsSound b m timestamp) a in
    let best =
      on_token-IsGood (λ b. best_event b m timestamp) books m.asset_id timestamp
        (λ b h. best_event-IsSound b m timestamp h) a in
    let cs = or_default (or_else m.price_changes m.changes) [] in
    elim (Bool-cases (event == "book")) [
      | inl e ↦ rw e book
      | inr e ↦ elim (Bool-cases (event == "price_change")) [
        | inl e' ↦ rw (e, e') (price_changes-IsGood books cs timestamp a)
        | inr e' ↦ elim (Bool-cases (event == "best_bid_ask")) [
          | inl h ↦ rw (e, e', h) best
          | inr h ↦ rw (e, e', h) (a, tt)
        ]
      ]
    ]

apply_parsed-IsGood :
    (books : Parser) (m : Option BookMessage) (timestamp : ℕ)
    → Sound books
    → IsGood (apply_parsed books m timestamp)
apply_parsed-IsGood books none timestamp a = (a, tt)
apply_parsed-IsGood books (some m) timestamp a = apply_message-IsGood books m timestamp a

-- Whatever messages arrive, malformed ones included, no book keeps a size that is not positive, and in
-- every snapshot that is pushed the bids fall, the asks rise and all sizes are positive.
pub apply-IsGood :
    (books : Parser) (ms : List (Option BookMessage)) (timestamp : ℕ)
    → Sound books
    → IsGood (apply books ms timestamp)
unfolding apply
apply-IsGood books [] timestamp a = (a, tt)
apply-IsGood books (m ∷ ms) timestamp a =
    let out = apply_parsed books m timestamp in
    let (sound, ordered) = apply_parsed-IsGood books m timestamp a in
    after_push-IsGood out.1 (apply out.0 ms timestamp) ordered
      (apply-IsGood out.0 ms timestamp sound)
