-- ===== src/Prelude/JsMap.antt =====
-- A JavaScript `Map`: entries in insertion order; `set` on a key that is there keeps its place.
use mathlib.Core.Path.{◌≡◌, refl}
use mathlib.Core.List.{List, [], ◌∷◌}
use mathlib.Core.Option.{Option, none, some}
use native.Mathlib.Omega.{arith}
use pok_poly_kalshi.Prelude.Tests.{MapKey, ◌==◌, if◌then◌else◌}

abbrev pub JsMap {ℓ κ} : Type ℓ → Type κ → Type (ℓ ⊔ κ)
JsMap K V = List (K × V)

module _ {ℓ κ} {K : Type ℓ} {V : Type κ} ⦃e : MapKey K⦄ where
  unfoldable pub get : JsMap K V → K → Option V
  get [] k = none
  get ((j, v) ∷ m) k = if j == k then some v else get m k

  unfoldable pub set : JsMap K V → K → V → JsMap K V
  set [] k v = (k, v) ∷ []
  set ((j, w) ∷ m) k v = if j == k then (j, v) ∷ m else (j, w) ∷ set m k v

  unfoldable pub delete : JsMap K V → K → JsMap K V
  delete [] k = []
  delete ((j, w) ∷ m) k = if j == k then delete m k else (j, w) ∷ delete m k

  pub get-set :
      (m : JsMap K V) (k : K) (v : V) (j : K)
      → get (set m k v) j ≡ (if k == j then some v else get m j)
  unfolding get set
  get-set [] k v j = refl
  get-set ((i, w) ∷ m) k v j =
      ground (arith, e.same_iff k j, e.same_iff i k, e.same_iff i j, get-set m k v j)

  pub get-set_self : (m : JsMap K V) (k : K) (v : V) → get (set m k v) k ≡ some v
  get-set_self m k v = ground (arith, get-set m k v k, e.same_iff k k)

  pub get-delete :
      (m : JsMap K V) (k j : K) → get (delete m k) j ≡ (if k == j then none else get m j)
  unfolding get delete
  get-delete [] k j = ground arith
  get-delete ((i, w) ∷ m) k j =
      ground (arith, e.same_iff k j, e.same_iff i k, e.same_iff i j, get-delete m k j)

abbrev pub keys {ℓ κ} : {K : Type ℓ} {V : Type κ} → JsMap K V → List K
keys [] = []
keys ((k, v) ∷ m) = k ∷ keys m

abbrev pub values {ℓ κ} : {K : Type ℓ} {V : Type κ} → JsMap K V → List V
values [] = []
values ((k, v) ∷ m) = v ∷ values m
