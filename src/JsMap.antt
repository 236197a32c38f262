-- ===== src/JsMap.antt =====
-- The `Map` of the language: entries in the order in which their keys were first set.
-- `set` on a key that is there overwrites in place; `delete` drops the entry.
pub mod Laws
use looplink.Base.{
  ℕ, ite, Bool, Option, none, some, List, [], ◌∷◌, map, is_some, ℕ_discrete, length, ◌≡◌,
}

-- Keys are compared by a decision, which stands for `===`.
pub record Key {ℓ} (K : Type ℓ) : Type ℓ where
  pub dec : Discrete K

instance abbrev pub nat_key : Key ℕ
nat_key = record { dec = ℕ_discrete }

abbrev pub JsMap {ℓ} : Type ℓ → Type ℓ → Type ℓ
JsMap K V = List (K × V)

module _ {ℓ} {K V : Type ℓ} where
  abbrev pub size : JsMap K V → ℕ
  size = length

  abbrev pub keys : JsMap K V → List K
  keys [] = []
  keys ((k, v) ∷ m) = k ∷ keys m

  abbrev pub values : JsMap K V → List V
  values [] = []
  values ((k, v) ∷ m) = v ∷ values m

module _ {ℓ} {K V : Type ℓ} ⦃e : Key K⦄ where
  unfoldable pub get : K → JsMap K V → Option V
  get k [] = none
  get k ((j, v) ∷ m) = ite (e.dec k j) (some v) (get k m)

  abbrev pub has : K → JsMap K V → Bool
  has k m = is_some (get k m)

  unfoldable pub set : K → V → JsMap K V → JsMap K V
  set k v [] = (k, v) ∷ []
  set k v ((j, w) ∷ m) = ite (e.dec k j) ((j, v) ∷ m) ((j, w) ∷ set k v m)

  unfoldable pub delete : K → JsMap K V → JsMap K V
  delete k [] = []
  delete k ((j, w) ∷ m) = ite (e.dec k j) (delete k m) ((j, w) ∷ delete k m)

  -- No key stands twice, which is what the language guarantees of a map.
  abbrev pub Distinct : JsMap K V → Type ℓ
  Distinct [] = Unit
  Distinct ((k, v) ∷ m) = (get k m ≡ none) × Distinct m
