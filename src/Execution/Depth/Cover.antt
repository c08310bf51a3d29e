-- ===== src/Execution/Depth/Cover.antt =====
-- What `depthWeightedAsk` of src/execution/quote-quality.ts walks over is there in the book.
use pok_poly_kalshi.Prelude.{ℕ, ◌+◌, ◌≤◌, ◌≡◌, refl, some, List, [], ◌∷◌, inl, inr, arith, ◌&&◌}
use pok_poly_kalshi.Prelude.Tests.{if◌then◌else◌, Bool-cases, leb, ltb, and_true}
use pok_poly_kalshi.Prelude.Lists.{All}
use pok_poly_kalshi.Prelude.Int.{ℤ, pos, negsuc, leb_ℤ, ◌≤ℤ◌}
use pok_poly_kalshi.Prelude.Money.{round_dollars}
use pok_poly_kalshi.Prelude.Sort.{insert_by, sort_by, All-sort_by}
use pok_poly_kalshi.Types.{Number, finite, not_finite, BookLevel}
use pok_poly_kalshi.Execution.Depth.{
  Ask, usable, keep_usable, usable_levels, dearer, Walk, take_level, walk, walked, begin_walk,
  full_walk, size_up_to, DepthVwapResult, depth_weighted_ask,
}

-- The prices do not fall, from a price on.
abbrev Ascends : ℕ → List Ask → Type 0
Ascends low [] = Unit
Ascends low (l ∷ ls) = (low ≤ l.price) × Ascends l.price ls

insert-Ascends :
    (low : ℕ) (x : Ask) (ls : List Ask)
    → low ≤ x.price
    → Ascends low ls
    → Ascends low (insert_by dearer x ls)
unfolding insert_by
insert-Ascends low x [] h a = (h, tt)
insert-Ascends low x (l ∷ ls) h (hl, a) = elim (Bool-cases (dearer x l)) [
  | inl e ↦ rw e (hl, insert-Ascends l.price x ls (ground (arith, e)) a)
  | inr e ↦ rw e (h, (ground (arith, e), a))
]

sort-Ascends : (ls : List Ask) → Ascends 0 (sort_by dearer ls)
unfolding sort_by
sort-Ascends [] = tt
sort-Ascends (l ∷ ls) = insert-Ascends 0 l (sort_by dearer ls) (omega arith) (sort-Ascends ls)

abbrev within : ℤ → Ask → ℕ
within limit l = if leb_ℤ (pos l.price) limit then l.size else 0

size_step :
    (limit : ℤ) (l : Ask) (ls : List Ask)
    → size_up_to limit (l ∷ ls) ≡ within limit l + size_up_to limit ls
unfolding size_up_to
size_step limit l ls = ground arith

size-insert :
    (limit : ℤ) (x : Ask) (ls : List Ask)
    → size_up_to limit (insert_by dearer x ls) ≡ within limit x + size_up_to limit ls
unfolding insert_by
size-insert limit x [] = size_step limit x []
size-insert limit x (l ∷ ls) = elim (Bool-cases (dearer x l)) [
  | inl e ↦ rw e (
      omega (
        arith,
        size_step limit l (insert_by dearer x ls),
        size-insert limit x ls,
        size_step limit l ls,
      ))
  | inr e ↦ rw e (size_step limit x (l ∷ ls))
]

size-sort : (limit : ℤ) (ls : List Ask) → size_up_to limit (sort_by dearer ls) ≡ size_up_to limit ls
unfolding sort_by
size-sort limit [] = refl
size-sort limit (l ∷ ls) =
    omega (arith, size-insert limit l (sort_by dearer ls), size-sort limit ls, size_step limit l ls)

-- A level that is walked over is within the price that the walk ends at.
walk-within :
    (w : Walk) (ls : List Ask)
    → Ascends w.worst_ask ls
    → (w.worst_ask ≤ (walk w ls).worst_ask)
      × ((walk w ls).depth ≤ w.depth + size_up_to (pos (walk w ls).worst_ask) ls)
unfolding walk take_level
walk-within w [] a = (omega arith, omega arith)
walk-within w (l ∷ ls) (h, a) = elim (Bool-cases (leb w.remaining 1)) [
  | inl e ↦ rw e (omega arith, omega arith)
  | inr e ↦
      let t = take_level w l in
      let (up, covered) = walk-within t ls a in
      rw e (
        omega (arith, h, up),
        ground (arith, up, covered, size_step (pos (walk t ls).worst_ask) l ls),
      )
]

-- The depth of the walk through a book is offered at the worst ask or below.
pub full_walk-covered :
    (levels : List BookLevel) (size : ℕ)
    → (full_walk levels size).depth
      ≤ size_up_to (pos (full_walk levels size).worst_ask) (usable_levels levels)
unfolding full_walk
full_walk-covered levels size =
    let sorted = sort_by dearer (usable_levels levels) in
    let end = walk (begin_walk size) sorted in
    omega (
      arith,
      walk-within (begin_walk size) sorted (sort-Ascends (usable_levels levels)),
      size-sort (pos end.worst_ask) (usable_levels levels),
    )

-- More is offered at a higher price.
pub size_up_to_mono : (a b : ℤ) (ls : List Ask) → a ≤ℤ b → size_up_to a ls ≤ size_up_to b ls
unfolding size_up_to
size_up_to_mono a b [] h = omega arith
size_up_to_mono a b (l ∷ ls) h = ground (arith, h, size_up_to_mono a b ls h)

abbrev AtMostOne : Ask → Type 0
AtMostOne l = l.price ≤ 1_000_000_000

keep-AtMostOne :
    (price size : Number) (rest : List Ask)
    → All AtMostOne rest
    → All AtMostOne (keep_usable (usable price size) rest)
unfolding usable
keep-AtMostOne (finite (pos p)) (finite (pos s)) rest a =
    elim (Bool-cases (leb p 1_000_000_000 && ltb 0 s)) [
      | inl e ↦ rw e (ground (arith, and_true (leb p 1_000_000_000) (ltb 0 s) e), a)
      | inr e ↦ rw e a
    ]
keep-AtMostOne (finite (pos p)) (finite (negsuc s)) rest a = a
keep-AtMostOne (finite (pos p)) not_finite rest a = a
keep-AtMostOne (finite (negsuc p)) size rest a = a
keep-AtMostOne not_finite size rest a = a

usable-AtMostOne : (levels : List BookLevel) → All AtMostOne (usable_levels levels)
unfolding usable_levels
usable-AtMostOne [] = tt
usable-AtMostOne (l ∷ ls) = keep-AtMostOne l.price l.size (usable_levels ls) (usable-AtMostOne ls)

walk-AtMostOne :
    (w : Walk) (ls : List Ask)
    → w.worst_ask ≤ 1_000_000_000
    → All AtMostOne ls
    → (walk w ls).worst_ask ≤ 1_000_000_000
unfolding walk take_level
walk-AtMostOne w [] h a = h
walk-AtMostOne w (l ∷ ls) h (hl, a) = elim (Bool-cases (leb w.remaining 1)) [
  | inl e ↦ rw e h
  | inr e ↦ rw e (walk-AtMostOne (take_level w l) ls hl a)
]

pub full_walk-AtMostOne :
    (levels : List BookLevel) (size : ℕ) → (full_walk levels size).worst_ask ≤ 1_000_000_000
unfolding full_walk
full_walk-AtMostOne levels size =
    walk-AtMostOne (begin_walk size) (sort_by dearer (usable_levels levels)) (omega arith)
      (All-sort_by AtMostOne dearer (usable_levels levels) (usable-AtMostOne levels))

-- A result covers the size, to a billionth, at the worst ask before rounding.
pub record Covers (levels : List BookLevel) (size : ℤ) (d : DepthVwapResult) : Type 0 where
  pub worst : ℕ
  pub at_most_one : worst ≤ 1_000_000_000
  pub worst_eq : d.worst_ask ≡ round_dollars (pos worst)
  pub covered : size ≤ℤ pos (size_up_to (pos worst) (usable_levels levels) + 1)

pub depth_weighted_ask-Covers :
    (levels : List BookLevel) (size : ℤ) (d : DepthVwapResult)
    → depth_weighted_ask levels size ≡ some d
    → Covers levels size d
unfolding depth_weighted_ask walked
depth_weighted_ask-Covers levels (negsuc n) d h = absurd (cc)
depth_weighted_ask-Covers levels (pos size) d h =
    let w = full_walk levels size in
    elim (Bool-cases (leb size 0)) [
      | inl e ↦ absurd (ground (arith, h, e))
      | inr e ↦ elim (Bool-cases (ltb (w.depth + 1) size)) [
        | inl e' ↦ absurd (ground (arith, h, e, e'))
        | inr e' ↦ record {
          worst = w.worst_ask;
          at_most_one = full_walk-AtMostOne levels size;
          worst_eq = ground (arith, h, e, e');
          covered = ground (arith, e', full_walk-covered levels size);
        }
      ]
    ]
