-- ===== src/Prelude/Sort.antt =====
-- `[...xs].sort(...)`, a stable sort: the test says whether the first goes before the second.
use mathlib.Core.Path.{◌≡◌}
use mathlib.Core.Bool.{Bool, true, false}
use mathlib.Core.Logic.{inl, inr}
use mathlib.Core.List.{List, [], ◌∷◌}
use pok_poly_kalshi.Prelude.Tests.{if◌then◌else◌, Bool-cases}
use pok_poly_kalshi.Prelude.Lists.{All}

module _ {ℓ} {A : Type ℓ} where
  -- Put an element before the first one that goes after it.
  unfoldable pub insert_by : (A → A → Bool) → A → List A → List A
  insert_by after x [] = x ∷ []
  insert_by after x (y ∷ ys) = if after x y then y ∷ insert_by after x ys else x ∷ y ∷ ys

  -- `after x y`: x goes strictly after y.
  unfoldable pub sort_by : (A → A → Bool) → List A → List A
  unfolding insert_by
  sort_by after [] = []
  sort_by after (x ∷ xs) = insert_by after x (sort_by after xs)

  pub All-insert_by {κ} :
      (P : A → Type κ) (after : A → A → Bool) (x : A) (ys : List A)
      → P x
      → All P ys
      → All P (insert_by after x ys)
  unfolding insert_by
  All-insert_by P after x [] p a = (p, tt)
  All-insert_by P after x (y ∷ ys) p (q, a) = elim (Bool-cases (after x y)) [
    | inl e ↦ rw e (q, All-insert_by P after x ys p a)
    | inr e ↦ rw e (p, (q, a))
  ]

  pub All-sort_by {κ} :
      (P : A → Type κ) (after : A → A → Bool) (xs : List A) → All P xs → All P (sort_by after xs)
  unfolding sort_by
  All-sort_by P after [] a = tt
  All-sort_by P after (x ∷ xs) (p, a) =
      All-insert_by P after x (sort_by after xs) p (All-sort_by P after xs a)

module _ {ℓ} {A : Type ℓ} (after : A → A → Bool) where
  -- The list may follow an element: no element goes after the next.
  abbrev pub Follows : A → List A → Type 0
  Follows x [] = Unit
  Follows x (y ∷ ys) = (after x y ≡ false) × Follows y ys

  abbrev pub Sorted : List A → Type 0
  Sorted [] = Unit
  Sorted (x ∷ xs) = Follows x xs

  Follows-insert_by :
      (asym : (a b : A) → after a b ≡ true → after b a ≡ false) (z x : A) (ls : List A)
      → after z x ≡ false
      → Follows z ls
      → Follows z (insert_by after x ls)
  unfolding insert_by
  Follows-insert_by asym z x [] h f = (h, tt)
  Follows-insert_by asym z x (y ∷ ys) h (g, f) = elim (Bool-cases (after x y)) [
    | inl e ↦ rw e (g, Follows-insert_by asym y x ys (asym x y e) f)
    | inr e ↦ rw e (h, (e, f))
  ]

  Sorted-insert_by :
      (asym : (a b : A) → after a b ≡ true → after b a ≡ false) (x : A) (ls : List A)
      → Sorted ls
      → Sorted (insert_by after x ls)
  unfolding insert_by
  Sorted-insert_by asym x [] f = tt
  Sorted-insert_by asym x (y ∷ ys) f = elim (Bool-cases (after x y)) [
    | inl e ↦ rw e (Follows-insert_by asym y x ys (asym x y e) f)
    | inr e ↦ rw e (e, f)
  ]

  pub Sorted-sort_by :
      (asym : (a b : A) → after a b ≡ true → after b a ≡ false) (xs : List A)
      → Sorted (sort_by after xs)
  unfolding sort_by
  Sorted-sort_by asym [] = tt
  Sorted-sort_by asym (x ∷ xs) = Sorted-insert_by asym x (sort_by after xs) (Sorted-sort_by asym xs)
