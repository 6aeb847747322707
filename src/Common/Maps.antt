-- ===== src/Common/Maps.antt =====
-- JavaScript's `Map`: entries in insertion order; writing a key that is there keeps its place.
use mathlib.Core.Path.{◌≡◌, refl}
use mathlib.Core.Bool.{Bool, true, false}
use mathlib.Core.Option.{Option, none, some}
use mathlib.Core.List.{List, [], ◌∷◌, ◌++◌, map}
use native.Mathlib.Omega.{arith}
use ts_plugins.Common.Tests.{if◌then◌else◌}
use ts_plugins.Common.Lists.{filter}
use ts_plugins.Common.Equality.{Eq, ◌==◌, ==_iff}

abbrev pub JsMap {ℓ κ} : Type ℓ → Type κ → Type (ℓ ⊔ κ)
JsMap K V = List (K × V)

module _ {ℓ κ} {K : Type ℓ} {V : Type κ} where
  abbrev pub keys : JsMap K V → List K
  keys = map (λ e. e.0)

module _ {ℓ κ} {K : Type ℓ} {V : Type κ} ⦃eq : Eq K⦄ where
  unfoldable pub get : JsMap K V → K → Option V
  get [] k = none
  get ((j, v) ∷ m) k = if j == k then some v else get m k

  unfoldable pub has : JsMap K V → K → Bool
  has [] k = false
  has ((j, v) ∷ m) k = if j == k then true else has m k

  unfoldable pub set : JsMap K V → K → V → JsMap K V
  set [] k v = (k, v) ∷ []
  set ((j, w) ∷ m) k v = if j == k then (j, v) ∷ m else (j, w) ∷ set m k v

  unfoldable pub delete : JsMap K V → K → JsMap K V
  delete [] k = []
  delete ((j, w) ∷ m) k = if j == k then delete m k else (j, w) ∷ delete m k

  pub get-set :
      (m : JsMap K V) (k j : K) (v : V) → get (set m k v) j ≡ (if k == j then some v else get m j)
  unfolding get set
  get-set [] k j v = refl
  get-set ((i, w) ∷ m) k j v = ground (arith, ==_iff k j, ==_iff i k, ==_iff i j, get-set m k j v)

  pub get-delete :
      (m : JsMap K V) (k j : K) → get (delete m k) j ≡ (if k == j then none else get m j)
  unfolding get delete
  get-delete [] k j = ground arith
  get-delete ((i, w) ∷ m) k j = ground (arith, ==_iff k j, ==_iff i k, ==_iff i j, get-delete m k j)

  -- No key stands twice, which JavaScript's `Map` grants.
  abbrev pub IsFresh : K → JsMap K V → Type 0
  IsFresh k m = has m k ≡ false

  abbrev pub IsDistinct : JsMap K V → Type 0
  IsDistinct [] = Unit
  IsDistinct ((k, v) ∷ m) = IsFresh k m × IsDistinct m

  pub has-get : (m : JsMap K V) (k : K) → get m k ≡ none → has m k ≡ false
  unfolding get has
  has-get [] k h = refl
  has-get ((j, v) ∷ m) k h = ground (arith, has-get m k)

  pub has-set :
      (m : JsMap K V) (k j : K) (v : V) → has (set m k v) j ≡ (if k == j then true else has m j)
  unfolding has set
  has-set [] k j v = refl
  has-set ((i, w) ∷ m) k j v = ground (arith, ==_iff k j, ==_iff i k, ==_iff i j, has-set m k j v)

  pub has-delete :
      (m : JsMap K V) (k j : K) → has (delete m k) j ≡ (if k == j then false else has m j)
  unfolding has delete
  has-delete [] k j = ground arith
  has-delete ((i, w) ∷ m) k j = ground (arith, ==_iff k j, ==_iff i k, ==_iff i j, has-delete m k j)

  pub set-IsDistinct : (m : JsMap K V) (k : K) (v : V) → IsDistinct m → IsDistinct (set m k v)
  unfolding set has
  set-IsDistinct [] k v h = (refl, tt)
  set-IsDistinct ((i, w) ∷ m) k v h =
      ground (arith, ==_iff i k, ==_iff k i, has-set m k i v, set-IsDistinct m k v)

  pub delete-IsDistinct : (m : JsMap K V) (k : K) → IsDistinct m → IsDistinct (delete m k)
  unfolding delete has
  delete-IsDistinct [] k h = tt
  delete-IsDistinct ((i, w) ∷ m) k h =
      ground (arith, ==_iff i k, ==_iff k i, has-delete m k i, delete-IsDistinct m k)

  pub delete_fresh : (m : JsMap K V) (k : K) → IsFresh k m → delete m k ≡ m
  unfolding delete has
  delete_fresh [] k h = refl
  delete_fresh ((i, w) ∷ m) k h = ground (arith, delete_fresh m k)

  pub set_fresh : (m : JsMap K V) (k : K) (v : V) → IsFresh k m → set m k v ≡ m ++ (k, v) ∷ []
  unfolding set has
  set_fresh [] k v h = refl
  set_fresh ((i, w) ∷ m) k v h = ground (arith, set_fresh m k v)

  -- To keep the entries whose keys pass a test.
  pub get-filter_keys :
      (p : K → Bool) (m : JsMap K V) (k : K)
      → get (filter (λ e. p e.0) m) k ≡ (if p k then get m k else none)
  unfolding get
  get-filter_keys p [] k = ground arith
  get-filter_keys p ((j, v) ∷ m) k = ground (arith, ==_iff j k, get-filter_keys p m k)
