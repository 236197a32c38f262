-- ===== src/JsMap/Laws.antt =====
-- Reads after writes, distinct keys, and sizes.
use looplink.Base.{
  ℕ, ◌+◌, ◌-◌, ◌≤◌, ◌≡◌, refl, ◌≢◌, ◌⊎◌, ite, Option, none, some, [], ◌∷◌, arith, length,
}
use looplink.JsMap.{Key, JsMap, get, set, delete, Distinct}

module _ {ℓ} {K V : Type ℓ} ⦃e : Key K⦄ where
  pub get-set :
      (k j : K) (v : V) (m : JsMap K V) → get j (set k v m) ≡ ite (e.dec k j) (some v) (get j m)
  unfolding get set
  get-set k j v [] = ground arith
  get-set k j v ((i, w) ∷ m) = ground (arith, get-set k j v m)

  pub get-delete : (k j : K) (m : JsMap K V) → get j (delete k m) ≡ ite (e.dec k j) none (get j m)
  unfolding get delete
  get-delete k j [] = ground arith
  get-delete k j ((i, w) ∷ m) = ground (arith, get-delete k j m)

  pub get-set_self : (k : K) (v : V) (m : JsMap K V) → get k (set k v m) ≡ some v
  get-set_self k v m = ground (arith, get-set k k v m)

  pub get-set_ne : (k j : K) (v : V) (m : JsMap K V) → k ≢ j → get j (set k v m) ≡ get j m
  get-set_ne k j v m h = ground (arith, get-set k j v m)

  -- What a map holds after an overwrite is the new entry or an old one.
  pub set-entry :
      (k j : K) (v w : V) (m : JsMap K V)
      → get j (set k v m) ≡ some w
      → ((k ≡ j) × (v ≡ w)) ⊎ ((k ≢ j) × (get j m ≡ some w))
  set-entry k j v w m p = ground (arith, get-set k j v m)

  pub delete-entry :
      (k j : K) (w : V) (m : JsMap K V) → get j (delete k m) ≡ some w → (k ≢ j) × (get j m ≡ some w)
  delete-entry k j w m p = ground (arith, get-delete k j m)

  pub get-delete_self : (k : K) (m : JsMap K V) → get k (delete k m) ≡ none
  get-delete_self k m = ground (arith, get-delete k k m)

  pub get-delete_ne : (k j : K) (m : JsMap K V) → k ≢ j → get j (delete k m) ≡ get j m
  get-delete_ne k j m h = ground (arith, get-delete k j m)

  pub delete_absent : (k : K) (m : JsMap K V) → get k m ≡ none → delete k m ≡ m
  unfolding get delete
  delete_absent k [] h = refl
  delete_absent k ((j, w) ∷ m) h = ground (arith, delete_absent k m)

  pub delete-delete : (k : K) (m : JsMap K V) → delete k (delete k m) ≡ delete k m
  delete-delete k m = delete_absent k (delete k m) (get-delete_self k m)

  pub set-Distinct : (k : K) (v : V) (m : JsMap K V) → Distinct m → Distinct (set k v m)
  unfolding get set
  set-Distinct k v [] d = (refl, tt)
  set-Distinct k v ((j, w) ∷ m) d = ground (arith, set-Distinct k v m d.1, get-set k j v m)

  pub delete-Distinct : (k : K) (m : JsMap K V) → Distinct m → Distinct (delete k m)
  unfolding delete
  delete-Distinct k [] d = tt
  delete-Distinct k ((j, w) ∷ m) d = ground (arith, delete-Distinct k m d.1, get-delete k j m)

  pub length-set :
      (k : K) (v : V) (m : JsMap K V)
      → length (set k v m) ≡ elim (get k m) [ none ↦ length m + 1 | some w ↦ length m ]
  unfolding get set
  length-set k v [] = omega arith
  length-set k v ((j, w) ∷ m) = ground (arith, length-set k v m)

  pub length-delete_present :
      (k : K) (v : V) (m : JsMap K V)
      → Distinct m
      → get k m ≡ some v
      → length (delete k m) + 1 ≡ length m
  unfolding get delete
  length-delete_present k v [] d h = cc
  length-delete_present k v ((j, w) ∷ m) d h =
      ground (arith, length-delete_present k v m d.1, delete_absent k m)

  pub length-delete-le : (k : K) (m : JsMap K V) → length (delete k m) ≤ length m
  unfolding delete
  length-delete-le k [] = omega arith
  length-delete-le k ((j, w) ∷ m) = ground (arith, length-delete-le k m)

module _ {ℓ} {V : Type ℓ} (f : V → ℕ) where
  abbrev pub at_key : Option V → ℕ
  at_key none = 0
  at_key (some v) = f v

-- The sum of a measure of the values moves with each write.
module _ {ℓ} {K V : Type ℓ} ⦃e : Key K⦄ (f : V → ℕ) where
  pub sum : JsMap K V → ℕ
  sum [] = 0
  sum ((k, v) ∷ m) = f v + sum m

  pub sum-set : (k : K) (v : V) (m : JsMap K V) → sum (set k v m) + at_key f (get k m) ≡ sum m + f v
  unfolding get set sum
  sum-set k v [] = omega arith
  sum-set k v ((j, w) ∷ m) = ground (arith, sum-set k v m)

  pub sum-delete :
      (k : K) (m : JsMap K V) → Distinct m → sum (delete k m) + at_key f (get k m) ≡ sum m
  unfolding get delete sum
  sum-delete k [] d = omega arith
  sum-delete k ((j, w) ∷ m) d = ground (arith, sum-delete k m d.1, delete_absent k m)

  pub at_key-le-sum : (k : K) (m : JsMap K V) → at_key f (get k m) ≤ sum m
  unfolding get sum
  at_key-le-sum k [] = omega arith
  at_key-le-sum k ((j, w) ∷ m) = ground (arith, at_key-le-sum k m)

-- Where a value stands in the map, its key leads to it.
module _ {ℓ} {K V : Type ℓ} ⦃e : Key K⦄ where
  pub size-delete_present :
      (k : K) (v : V) (m : JsMap K V)
      → Distinct m
      → get k m ≡ some v
      → length (delete k m) ≡ length m - 1
  size-delete_present k v m d h = omega (arith, length-delete_present k v m d h)
