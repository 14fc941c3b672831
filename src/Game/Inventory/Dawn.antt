-- ===== src/Game/Inventory/Dawn.antt =====
-- dawn_recharge of src/ai_dm/game/combatant_state.py. What the catalogue and the dice give back at dawn is
-- an argument: none for a stack that is not recharged at dawn.
use ai_dm.Prelude.{
  Bool-cases, inl, inr, ◌≡◌, refl, sym, ap, ◌∙◌, Option, none, some, List, [], ◌∷◌, String, arith,
  if◌then◌else◌, is_some, first, All, Option-elim,
}
use mathlib.Core.Path.{subst}
use ai_dm.Prelude.Int.{ℤ, pos, ◌+ℤ◌, ◌≤ℤ◌, int_laws}
use ai_dm.Prelude.Dict.{Dict, put, string_key}
use ai_dm.Game.Inventory.{CarriedItem, Inventory, has_id, by_id}
use ai_dm.Game.Inventory.Pools.{first-id}
use ai_dm.Game.Inventory.Charges.{
  set_charges, charges_of, restored_by, restore_from, restore_charges,
}

module _ (amount : CarriedItem → Option ℤ) where
  -- The stacks without charges and those that are not magic are passed over.
  abbrev at_dawn : CarriedItem → Option ℤ
  at_dawn stack =
      if is_some stack.max_charges
      then (if is_some stack.magic_item_key then amount stack else none)
      else none

  abbrev recharge_one :
      CarriedItem → Option ℤ → Inventory × Dict String ℤ → Inventory × Dict String ℤ
  recharge_one stack none (inv, out) = (inv, out)
  recharge_one stack (some n) (inv, out) =
      let restored = restore_charges inv stack.instance_id (some n) in
      (restored.0, put out stack.instance_id restored.1)

  unfoldable pub recharge_each :
      List CarriedItem → Inventory × Dict String ℤ → Inventory × Dict String ℤ
  unfolding restore_charges
  recharge_each [] state = state
  recharge_each (stack ∷ stacks) state =
      recharge_each stacks (recharge_one stack (at_dawn stack) state)

  unfoldable pub dawn_recharge : Inventory → Inventory × Dict String ℤ
  unfolding recharge_each
  dawn_recharge inv = recharge_each inv.items (inv, [])

-- At most the maximum of the pool, where there is one.
abbrev Within : Option ℤ → ℤ → Type 0
Within none charges = Unit
Within (some max_charges) charges = charges ≤ℤ max_charges

abbrev pub IsWithin : CarriedItem → Type 0
IsWithin it = Within it.max_charges (charges_of it)

abbrev pub AllWithin : List CarriedItem → Type 0
AllWithin items = All IsWithin items

AllWithin-first :
    (j : String) (items : List CarriedItem) (it : CarriedItem)
    → first (has_id j) items ≡ some it
    → AllWithin items
    → IsWithin it
AllWithin-first j [] it found h = cc
AllWithin-first j (x ∷ items) it found h = elim (Bool-cases (has_id j x)) [
  | inl e ↦
      let same : some x ≡ some it = ground (arith, e, found) in
      subst (λ o. elim o [ none ↦ Unit | some y ↦ IsWithin y ]) same h.0
  | inr e ↦ AllWithin-first j items it (ground (arith, e, found)) h.1
]

AllWithin-set_charges :
    (j : String) (v : ℤ) (items : List CarriedItem) (it : CarriedItem)
    → first (has_id j) items ≡ some it
    → Within it.max_charges v
    → AllWithin items
    → AllWithin (set_charges j v items)
unfolding set_charges
AllWithin-set_charges j v [] it found fits h = tt
AllWithin-set_charges j v (x ∷ items) it found fits h = elim (Bool-cases (has_id j x)) [
  | inl e ↦
      let same : some it ≡ some x = ground (arith, e, found) in
      let here : Within x.max_charges v =
        subst (λ o. elim o [ none ↦ Unit | some y ↦ Within y.max_charges v ]) same fits in
      rw e (here, h.1)
  | inr e ↦ rw e (h.0, AllWithin-set_charges j v items it (ground (arith, e, found)) fits h.1)
]

restored_within :
    (max_charges cur n : ℤ)
    → cur ≤ℤ max_charges
    → cur +ℤ restored_by max_charges cur (some n) ≤ℤ max_charges
restored_within max_charges cur n h = omega (int_laws, h)

restore_from-AllWithin :
    (inv : Inventory) (it : CarriedItem) (n : ℤ) (m : Option ℤ)
    → it.max_charges ≡ m
    → first (has_id it.instance_id) inv.items ≡ some it
    → AllWithin inv.items
    → AllWithin (restore_from inv it (some n) m).0.items
unfolding restore_from
restore_from-AllWithin inv it n none pool found h = h
restore_from-AllWithin inv it n (some max_charges) pool found h =
    let old : Within (some max_charges) (charges_of it) =
      subst (λ m. Within m (charges_of it)) pool
        (AllWithin-first it.instance_id inv.items it found h) in
    AllWithin-set_charges it.instance_id _ inv.items it found
      (subst (λ m. Within m (charges_of it +ℤ restored_by max_charges (charges_of it) (some n)))
        (sym pool) (restored_within max_charges (charges_of it) n old))
      h

restore_charges-AllWithin :
    (inv : Inventory) (j : String) (n : ℤ)
    → AllWithin inv.items
    → AllWithin (restore_charges inv j (some n)).0.items
unfolding restore_charges
restore_charges-AllWithin inv j n h =
    Option-elim (λ (out : Inventory × ℤ). AllWithin out.0.items) (by_id inv j) (inv, pos 0)
      (λ it. restore_from inv it (some n) it.max_charges) (λ e. h)
      (λ it at.
        restore_from-AllWithin inv it n it.max_charges refl
          (ap (λ (k : String). first (has_id k) inv.items) (first-id j inv.items it at) ∙ at) h)

module _ (amount : CarriedItem → Option ℤ) where
  recharge_one-AllWithin :
      (it : CarriedItem) (o : Option ℤ) (state : Inventory × Dict String ℤ)
      → AllWithin state.0.items
      → AllWithin (recharge_one amount it o state).0.items
  recharge_one-AllWithin it none (inv, out) h = h
  recharge_one-AllWithin it (some n) (inv, out) h = restore_charges-AllWithin inv it.instance_id n h

  recharge_each-AllWithin :
      (items : List CarriedItem) (state : Inventory × Dict String ℤ)
      → AllWithin state.0.items
      → AllWithin (recharge_each amount items state).0.items
  unfolding recharge_each
  recharge_each-AllWithin [] state h = h
  recharge_each-AllWithin (it ∷ items) state h =
      recharge_each-AllWithin items (recharge_one amount it (at_dawn amount it) state)
        (recharge_one-AllWithin it (at_dawn amount it) state h)

  -- Whatever is given back at dawn: where no pool holds more than its maximum, none does afterwards.
  pub dawn_recharge-AllWithin :
      (inv : Inventory) → AllWithin inv.items → AllWithin (dawn_recharge amount inv).0.items
  unfolding dawn_recharge
  dawn_recharge-AllWithin inv h = recharge_each-AllWithin inv.items (inv, []) h
