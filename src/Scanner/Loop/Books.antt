-- ===== src/Scanner/Loop/Books.antt =====
-- The reservations of src/scanner/scanner.ts when a candidate joins what is in flight, and when it leaves.
use mathlib.Core.Path.{subst}
use pok_poly_kalshi.Prelude.{
  ℕ, ◌≤◌, ◌<◌, String, ◌≡◌, Option, none, some, List, [], ◌∷◌, ◌++◌, arith, inl, inr,
}
use pok_poly_kalshi.Prelude.Tests.{Bool-cases, nat_beq, nat_beq_iff, nat_key, text_key}
use pok_poly_kalshi.Prelude.Lists.{All}
use pok_poly_kalshi.Prelude.JsMap.{JsMap}
use pok_poly_kalshi.Prelude.JsSet.{add, remove, add_all, remove_all}
use pok_poly_kalshi.Scanner.Candidate.{ArbCandidate}
use pok_poly_kalshi.Scanner.Loop.{
  ScannerOptions, QueuedCandidate, pair_text, live_leg_keys, max_trades, reserved_for,
  reserve_expiry, release_expiry,
}
use pok_poly_kalshi.Scanner.Loop.Claims.{
  Pairwise, Pairwise-middle, Pairwise-end, Holds, Apart, Apart-sym, Holds-add_all, Holds-remove_all,
}
use pok_poly_kalshi.Scanner.Loop.Flight.{
  count, count-append, reserved_for-reserve, reserved_for-release,
}

-- The two kinds of keys that a candidate takes: its pair, and those of its legs.
abbrev pub pair_keys : QueuedCandidate → List String
pair_keys q = pair_text q.candidate ∷ []

abbrev pub leg_keys : QueuedCandidate → List String
leg_keys q = live_leg_keys q.candidate

-- A candidate may join what is in flight: its window has room, and its legs and its pair are free.
pub record Admissible (o : ScannerOptions) (flight : List QueuedCandidate) (q : QueuedCandidate)
    : Type 0 where
  pub window : count q.candidate.expiry_ms flight < max_trades o
  pub legs : All (Apart leg_keys q) flight
  pub pair : All (Apart pair_keys q) flight

-- The reservations say what is in flight, and what is in flight was admissible.
pub record Books (o : ScannerOptions) (flight : List QueuedCandidate) (active : List String)
    (expiries : JsMap ℕ ℕ) (taken : List String) : Type 0 where
  pub pairs : Holds pair_keys active flight
  pub legs : Holds leg_keys taken flight
  pub windows : (expiry : ℕ) → reserved_for expiries expiry ≡ count expiry flight
  pub limited : (expiry : ℕ) → count expiry flight ≤ max_trades o
  pub apart_pairs : Pairwise (Apart pair_keys) flight
  pub apart_legs : Pairwise (Apart leg_keys) flight

-- The candidate that the scan considers still finds room.
abbrev pub HasRoom : ScannerOptions → List QueuedCandidate → Option ArbCandidate → Type 0
HasRoom o flight none = Unit
HasRoom o flight (some c) =
    (count c.expiry_ms flight < max_trades o)
    × All (Apart leg_keys (record { candidate = c; now = 0 })) flight

pub count-middle :
    (expiry : ℕ) (xs : List QueuedCandidate) (q : QueuedCandidate) (ys : List QueuedCandidate)
    → count expiry (xs ++ ys) ≤ count expiry (xs ++ q ∷ ys)
count-middle expiry xs q ys =
    omega (arith, count-append expiry xs (q ∷ ys), count-append expiry xs ys)

join-limited :
    (o : ScannerOptions) (flight : List QueuedCandidate) (q : QueuedCandidate) (expiry : ℕ)
    → count expiry flight ≤ max_trades o
    → count q.candidate.expiry_ms flight < max_trades o
    → count expiry (flight ++ q ∷ []) ≤ max_trades o
join-limited o flight q expiry b w = elim (Bool-cases (nat_beq q.candidate.expiry_ms expiry)) [
  | inl e ↦
      let own = nat_beq_iff q.candidate.expiry_ms expiry in
      rw (count-append expiry flight (q ∷ []), e)
        (omega (arith, subst (λ x. count x flight < max_trades o) (own.0 e) w))
  | inr e ↦ rw (count-append expiry flight (q ∷ []), e) (omega (arith, b))
]

pub join-Books :
    (o : ScannerOptions) (flight : List QueuedCandidate) (active : List String)
    (expiries : JsMap ℕ ℕ) (taken : List String) (q : QueuedCandidate)
    → Books o flight active expiries taken
    → Admissible o flight q
    → Books o
        (flight ++ q ∷ [])
        (add active (pair_text q.candidate))
        (reserve_expiry expiries q.candidate.expiry_ms)
        (add_all taken (leg_keys q))
unfolding add_all
join-Books o flight active expiries taken q b a = record {
  pairs = Holds-add_all pair_keys active flight q b.pairs;
  legs = Holds-add_all leg_keys taken flight q b.legs;
  windows = λ expiry. ground (
    arith,
    reserved_for-reserve expiries q.candidate.expiry_ms expiry,
    b.windows expiry,
    count-append expiry flight (q ∷ []),
  );
  limited = λ expiry. join-limited o flight q expiry (b.limited expiry) a.window;
  apart_pairs = Pairwise-end (Apart pair_keys) (Apart-sym pair_keys) flight q a.pair b.apart_pairs;
  apart_legs = Pairwise-end (Apart leg_keys) (Apart-sym leg_keys) flight q a.legs b.apart_legs;
}

pub leave-Books :
    (o : ScannerOptions) (xs : List QueuedCandidate) (q : QueuedCandidate)
    (ys : List QueuedCandidate) (active : List String) (expiries : JsMap ℕ ℕ) (taken : List String)
    → Books o (xs ++ q ∷ ys) active expiries taken
    → Books o
        (xs ++ ys)
        (remove active (pair_text q.candidate))
        (release_expiry expiries q.candidate.expiry_ms)
        (remove_all taken (leg_keys q))
unfolding remove_all
leave-Books o xs q ys active expiries taken b =
    let (own_pair, pairs) =
      Pairwise-middle (Apart pair_keys) (Apart-sym pair_keys) xs q ys b.apart_pairs in
    let (own_legs, legs) =
      Pairwise-middle (Apart leg_keys) (Apart-sym leg_keys) xs q ys b.apart_legs in
    record {
      pairs = Holds-remove_all pair_keys active xs q ys b.pairs own_pair;
      legs = Holds-remove_all leg_keys taken xs q ys b.legs own_legs;
      windows = λ expiry. ground (
        arith,
        reserved_for-release expiries q.candidate.expiry_ms expiry,
        b.windows expiry,
        count-append expiry xs (q ∷ ys),
        count-append expiry xs ys,
      );
      limited = λ expiry. omega (arith, b.limited expiry, count-middle expiry xs q ys);
      apart_pairs = pairs;
      apart_legs = legs;
    }
