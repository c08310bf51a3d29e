-- ===== src/Scanner/Loop/Claims.antt =====
-- A set that holds the keys of everything in flight, as `activePairs` and `activeLiveLegs` of
-- src/scanner/scanner.ts do.
use pok_poly_kalshi.Prelude.{
  Bool, true, false, ◌≡◌, refl, sym, ◌∙◌, List, [], ◌∷◌, ◌++◌, arith, ◌||◌, inl, inr,
}
use pok_poly_kalshi.Prelude.Tests.{MapKey, Bool-cases}
use pok_poly_kalshi.Prelude.Lists.{any, All, All-append}
use pok_poly_kalshi.Prelude.JsSet.{has, add_all, remove_all, has-add_all, has-remove_all}

any-rest : (b c : Bool) → (b || c) ≡ false → c ≡ false
any-rest b c h = ground (arith, h)

module _ {ℓ} {A : Type ℓ} where
  pub any-append : (p : A → Bool) (xs ys : List A) → any p (xs ++ ys) ≡ (any p xs || any p ys)
  any-append p [] ys = refl
  any-append p (x ∷ xs) ys = ground (arith, any-append p xs ys)

  -- The test fails on all.
  pub any-none : (p : A → Bool) (xs : List A) → All (λ x. p x ≡ false) xs → any p xs ≡ false
  any-none p [] a = refl
  any-none p (x ∷ xs) (h, a) = ground (arith, h, any-none p xs a)

  pub none-any : (p : A → Bool) (xs : List A) → any p xs ≡ false → All (λ x. p x ≡ false) xs
  none-any p [] h = tt
  none-any p (x ∷ xs) h = elim (Bool-cases (p x)) [
    | inl e ↦ absurd (ground (arith, h, e))
    | inr e ↦ (e, none-any p xs (ground (arith, h, e)))
  ]

  -- Any two elements are related, the earlier one first.
  abbrev pub Pairwise {κ} : (A → A → Type κ) → List A → Type κ
  Pairwise R [] = Unit
  Pairwise R (x ∷ xs) = All (R x) xs × Pairwise R xs

  All-parts {κ} : (P : A → Type κ) (xs ys : List A) → All P (xs ++ ys) → All P xs × All P ys
  All-parts P [] ys a = (tt, a)
  All-parts P (x ∷ xs) ys (h, a) = let (l, r) = All-parts P xs ys a in ((h, l), r)

  pub All-middle {κ} :
      (P : A → Type κ) (xs : List A) (q : A) (ys : List A) → All P (xs ++ q ∷ ys) → All P (xs ++ ys)
  All-middle P xs q ys a =
      let (left, right) = All-parts P xs (q ∷ ys) a in All-append P xs ys left right.1

  -- One element can be taken out, and is related to each that is left.
  pub Pairwise-middle {κ} :
      (R : A → A → Type κ)
      → ((x y : A) → R x y → R y x)
      → (xs : List A) (q : A) (ys : List A) → Pairwise R (xs ++ q ∷ ys)
      → All (R q) (xs ++ ys) × Pairwise R (xs ++ ys)
  Pairwise-middle R flip [] q ys (a, p) = (a, p)
  Pairwise-middle R flip (x ∷ xs) q ys (a, p) =
      let (own, rest) = Pairwise-middle R flip xs q ys p in
      let (left, right) = All-parts (R x) xs (q ∷ ys) a in
      ((flip x q right.0, own), (All-append (R x) xs ys left right.1, rest))

  -- One element can be put at the end.
  pub Pairwise-end {κ} :
      (R : A → A → Type κ)
      → ((x y : A) → R x y → R y x)
      → (xs : List A) (q : A) → All (R q) xs
      → Pairwise R xs
      → Pairwise R (xs ++ q ∷ [])
  Pairwise-end R flip [] q a p = (tt, tt)
  Pairwise-end R flip (x ∷ xs) q (h, a) (own, p) =
      (All-append (R x) xs (q ∷ []) own (flip q x h, tt), Pairwise-end R flip xs q a p)

module _ {ℓ κ} {A : Type ℓ} {K : Type κ} ⦃e : MapKey K⦄ (keys_of : A → List K) where
  -- The set has exactly the keys of the list.
  abbrev pub Holds : List K → List A → Type κ
  Holds set xs = (k : K) → has set k ≡ any (λ x. has (keys_of x) k) xs

  -- No key in common.
  abbrev pub Apart : A → A → Type κ
  Apart x y = (k : K) → has (keys_of x) k ≡ true → has (keys_of y) k ≡ false

  pub Apart-sym : (x y : A) → Apart x y → Apart y x
  Apart-sym x y h k own = elim (Bool-cases (has (keys_of x) k)) [
    | inl m ↦ absurd (ground (arith, own, h k m))
    | inr m ↦ m
  ]

  pub Holds-add_all :
      (set : List K) (xs : List A) (q : A)
      → Holds set xs
      → Holds (add_all set (keys_of q)) (xs ++ q ∷ [])
  Holds-add_all set xs q h k =
      ground
        (arith, has-add_all set (keys_of q) k, h k, any-append (λ x. has (keys_of x) k) xs (q ∷ []))

  none_shared :
      (xs : List A) (q : A) (k : K)
      → All (Apart q) xs
      → has (keys_of q) k ≡ true
      → any (λ x. has (keys_of x) k) xs ≡ false
  none_shared [] q k a m = refl
  none_shared (x ∷ xs) q k (h, a) m = ground (arith, h k m, none_shared xs q k a m)

  pub Holds-remove_all :
      (set : List K) (xs : List A) (q : A) (ys : List A)
      → Holds set (xs ++ q ∷ ys)
      → All (Apart q) (xs ++ ys)
      → Holds (remove_all set (keys_of q)) (xs ++ ys)
  Holds-remove_all set xs q ys h a k =
      let test = λ (x : A). has (keys_of x) k in
      elim (Bool-cases (has (keys_of q) k)) [
        | inl m ↦
            ground (arith, has-remove_all set (keys_of q) k, m, none_shared (xs ++ ys) q k a m)
        | inr m ↦ ground (
          arith,
          has-remove_all set (keys_of q) k,
          m,
          h k,
          any-append test xs (q ∷ ys),
          any-append test xs ys,
        )
      ]

  All-has :
      (set ks : List K) (k : K)
      → All (λ j. has set j ≡ false) ks
      → has ks k ≡ true
      → has set k ≡ false
  unfolding has
  All-has set [] k a m = cc
  All-has set (j ∷ ks) k (h, a) m = ground (arith, e.same_iff j k, h, All-has set ks k a)

  Apart-of_none :
      (xs : List A) (q : A)
      → ((k : K) → has (keys_of q) k ≡ true → any (λ x. has (keys_of x) k) xs ≡ false)
      → All (Apart q) xs
  Apart-of_none [] q h = tt
  Apart-of_none (x ∷ xs) q h = (
    λ k own. (none-any (λ y. has (keys_of y) k) (x ∷ xs) (h k own)).0,
    Apart-of_none xs q
        (λ k own. any-rest (has (keys_of x) k) (any (λ y. has (keys_of y) k) xs) (h k own)),
  )

  -- An element none of whose keys is in the set is apart from all that the set holds.
  pub free-Apart :
      (set : List K) (xs : List A) (q : A)
      → Holds set xs
      → All (λ k. has set k ≡ false) (keys_of q)
      → All (Apart q) xs
  free-Apart set xs q h free =
      Apart-of_none xs q (λ k own. sym (h k) ∙ All-has set (keys_of q) k free own)
