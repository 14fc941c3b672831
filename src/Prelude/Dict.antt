-- ===== src/Prelude/Dict.antt =====
-- Python's `dict` as an association list in insertion order, over a Boolean test of keys.
use mathlib.Core.Path.{subst}
use ai_dm.Prelude.{
  Bool-cases, inl, inr, Bool, true, false, ◌≡◌, ◌↔◌, refl, Option, none, some, List, [], ◌∷◌,
  String, arith, str_eq, eq_iff, if◌then◌else◌,
}
use ai_dm.Prelude.Int.{ℤ, eq_ℤ}

-- Equality of keys: a test, and that it is one.
pub record Key {ℓ} (K : Type ℓ) : Type ℓ where
  pub same : K → K → Bool
  pub same_iff : (a b : K) → (same a b ≡ true) ↔ (a ≡ b)

pub eq_ℤ_iff : (a b : ℤ) → (eq_ℤ a b ≡ true) ↔ (a ≡ b)
eq_ℤ_iff a b = (λ h. ground arith, λ h. ground arith)

instance abbrev pub string_key : Key String
string_key = record { same = str_eq; same_iff = eq_iff }

instance abbrev pub int_key : Key ℤ
int_key = record { same = eq_ℤ; same_iff = eq_ℤ_iff }

abbrev pub Dict {ℓ κ} : Type ℓ → Type κ → Type (ℓ ⊔ κ)
Dict K V = List (K × V)

module _ {ℓ κ} {K : Type ℓ} ⦃key : Key K⦄ {V : Type κ} where
  -- `d.get(k)`
  unfoldable pub get : Dict K V → K → Option V
  get [] k = none
  get ((j, v) ∷ d) k = if key.same j k then some v else get d k

  -- `d[k] = v`
  unfoldable pub put : Dict K V → K → V → Dict K V
  put [] k v = (k, v) ∷ []
  put ((j, w) ∷ d) k v = if key.same j k then (j, v) ∷ d else (j, w) ∷ put d k v

  -- `d.pop(k, None)`
  unfoldable pub pop : Dict K V → K → Dict K V
  pop [] k = []
  pop ((j, v) ∷ d) k = let rest = pop d k in if key.same j k then rest else (j, v) ∷ rest

  pub get-put :
      (d : Dict K V) (k j : K) (v : V)
      → get (put d k v) j ≡ (if key.same k j then some v else get d j)
  unfolding get put
  get-put [] k j v = refl
  get-put ((i, w) ∷ d) k j v =
      ground (arith, key.same_iff k j, key.same_iff i k, key.same_iff i j, get-put d k j v)

  pub get-put_self : (d : Dict K V) (k : K) (v : V) → get (put d k v) k ≡ some v
  get-put_self d k v = ground (arith, get-put d k k v, key.same_iff k k)

  pub get-put_ne :
      (d : Dict K V) (k j : K) (v : V) → key.same k j ≡ false → get (put d k v) j ≡ get d j
  get-put_ne d k j v h = ground (arith, get-put d k j v)

module _ {ℓ κ} {K : Type ℓ} ⦃key : Key K⦄ {V : Type κ} where
  pub get-pop :
      (d : Dict K V) (k j : K) → get (pop d k) j ≡ (if key.same k j then none else get d j)
  unfolding get pop
  get-pop [] k j = ground arith
  get-pop ((i, w) ∷ d) k j =
      ground (arith, key.same_iff k j, key.same_iff i k, key.same_iff i j, get-pop d k j)

module _ {ℓ κ} {K : Type ℓ} {V : Type κ} where
  abbrev pub keys : Dict K V → List K
  keys [] = []
  keys ((k, v) ∷ d) = k ∷ keys d

  -- A loop that writes each value of the dictionary.
  abbrev pub map_values : (V → V) → Dict K V → Dict K V
  map_values f [] = []
  map_values f ((k, v) ∷ d) = (k, f v) ∷ map_values f d

  -- Each value has the property.
  abbrev pub AllValues {μ} : (V → Type μ) → Dict K V → Type μ
  AllValues P [] = Unit
  AllValues P ((k, v) ∷ d) = P v × AllValues P d

module _ {ℓ κ} {K : Type ℓ} ⦃key : Key K⦄ {V : Type κ} where
  pub get-map_values :
      (f : V → V) (d : Dict K V) (k : K)
      → get (map_values f d) k ≡ elim (get d k) [ none ↦ none | some v ↦ some (f v) ]
  unfolding get
  get-map_values f [] k = refl
  get-map_values f ((j, v) ∷ d) k = ground (arith, get-map_values f d k)

module _ {ℓ κ μ} {K : Type ℓ} ⦃key : Key K⦄ {V : Type κ} (P : V → Type μ) where
  pub AllValues-get : (d : Dict K V) (k : K) (v : V) → AllValues P d → get d k ≡ some v → P v
  unfolding get
  AllValues-get [] k v h e = cc
  AllValues-get ((j, w) ∷ d) k v h e = elim (Bool-cases (key.same j k)) [
    | inl s ↦ let hit : some w ≡ some v = rw s at e in subst P (cc) h.0
    | inr n ↦ AllValues-get d k v h.1 (rw n at e)
  ]

  pub AllValues-put : (d : Dict K V) (k : K) (v : V) → AllValues P d → P v → AllValues P (put d k v)
  unfolding put
  AllValues-put [] k v h p = (p, tt)
  AllValues-put ((j, w) ∷ d) k v h p = elim (Bool-cases (key.same j k)) [
    | inl s ↦ rw s (p, h.1)
    | inr n ↦ rw n (h.0, AllValues-put d k v h.1 p)
  ]
