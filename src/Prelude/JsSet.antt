-- ===== src/Prelude/JsSet.antt =====
-- A JavaScript `Set`, as the list of its elements.
use mathlib.Core.Path.{◌≡◌, refl}
use mathlib.Core.Bool.{Bool, false, ◌||◌}
use mathlib.Core.List.{List, [], ◌∷◌}
use native.Mathlib.Omega.{arith}
use pok_poly_kalshi.Prelude.Tests.{MapKey, ◌==◌, if◌then◌else◌}

module _ {ℓ} {K : Type ℓ} ⦃e : MapKey K⦄ where
  unfoldable pub has : List K → K → Bool
  has [] k = false
  has (j ∷ js) k = j == k || has js k

  unfoldable pub add : List K → K → List K
  unfolding has
  add js k = if has js k then js else k ∷ js

  unfoldable pub remove : List K → K → List K
  remove [] k = []
  remove (j ∷ js) k = if j == k then remove js k else j ∷ remove js k

  -- `for (const k of ks) js.add(k)`, and `js.delete(k)`.
  unfoldable pub add_all : List K → List K → List K
  unfolding add
  add_all js [] = js
  add_all js (k ∷ ks) = add_all (add js k) ks

  unfoldable pub remove_all : List K → List K → List K
  unfolding remove
  remove_all js [] = js
  remove_all js (k ∷ ks) = remove_all (remove js k) ks

  pub has-add : (js : List K) (k j : K) → has (add js k) j ≡ (k == j || has js j)
  unfolding add has
  has-add js k j = ground (arith, e.same_iff k j)

  pub has-remove :
      (js : List K) (k j : K) → has (remove js k) j ≡ (if k == j then false else has js j)
  unfolding remove has
  has-remove [] k j = ground arith
  has-remove (i ∷ js) k j =
      ground (arith, e.same_iff k j, e.same_iff i k, e.same_iff i j, has-remove js k j)

  pub has-add_all : (js ks : List K) (j : K) → has (add_all js ks) j ≡ (has ks j || has js j)
  unfolding add_all has
  has-add_all js [] j = refl
  has-add_all js (k ∷ ks) j = ground (arith, has-add_all (add js k) ks j, has-add js k j)

  pub has-remove_all :
      (js ks : List K) (j : K) → has (remove_all js ks) j ≡ (if has ks j then false else has js j)
  unfolding remove_all has
  has-remove_all js [] j = refl
  has-remove_all js (k ∷ ks) j =
      ground (arith, has-remove_all (remove js k) ks j, has-remove js k j)
