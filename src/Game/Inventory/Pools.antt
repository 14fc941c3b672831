-- ===== src/Game/Inventory/Pools.antt =====
-- Inventory of src/ai_dm/game/combatant_state.py: charges that are expended and restored.
use ai_dm.Prelude.{
  Bool-cases, inl, inr, ◌≡◌, refl, ◌∙◌, ap, Option, none, some, List, [], ◌∷◌, String, arith,
  eq_iff, first, get_or_default,
}
use ai_dm.Prelude.Int.{ℤ, pos, ◌+ℤ◌, ◌-ℤ◌, ◌≤ℤ◌, ◌<ℤ◌, int_laws}
use ai_dm.Game.Inventory.{CarriedItem, Inventory, has_id, by_id}
use ai_dm.Game.Inventory.Charges.{
  set_charges, charges_of, expend_from, expend_charges, restore_from, restore_charges, restored_by,
}

first-set_charges :
    (j : String) (v : ℤ) (items : List CarriedItem) (it : CarriedItem)
    → first (has_id j) items ≡ some it
    → first (has_id j) (set_charges j v items) ≡ some (record it { charges = some v })
unfolding set_charges
first-set_charges j v [] it found = cc
first-set_charges j v (x ∷ items) it found = elim (Bool-cases (has_id j x)) [
  | inl e ↦ ground (arith, e, found)
  | inr e ↦ ground (arith, e, found, first-set_charges j v items it (ground (arith, e, found)))
]

set_charges_twice :
    (j : String) (v w : ℤ) (items : List CarriedItem)
    → set_charges j w (set_charges j v items) ≡ set_charges j w items
unfolding set_charges
set_charges_twice j v w [] = refl
set_charges_twice j v w (x ∷ items) = elim (Bool-cases (has_id j x)) [
  | inl e ↦ ground (arith, e)
  | inr e ↦ ground (arith, e, set_charges_twice j v w items)
]

pub first-id :
    (j : String) (items : List CarriedItem) (it : CarriedItem)
    → first (has_id j) items ≡ some it
    → it.instance_id ≡ j
first-id j [] it found = cc
first-id j (x ∷ items) it found = elim (Bool-cases (has_id j x)) [
  | inl e ↦ ground (arith, e, found, eq_iff x.instance_id j)
  | inr e ↦ first-id j items it (ground (arith, e, found))
]

restored_all :
    (max_charges charges n : ℤ)
    → charges ≤ℤ max_charges
    → pos 0 <ℤ n
    → (restored_by max_charges (charges -ℤ n) (some n) ≡ n) × ((charges -ℤ n) +ℤ n ≡ charges)
restored_all max_charges charges n below positive = (omega int_laws, omega int_laws)

restore_from_lem :
    (inv : Inventory) (stack : CarriedItem) (max_charges charges n : ℤ)
    → stack.charges ≡ some (charges -ℤ n)
    → charges ≤ℤ max_charges
    → pos 0 <ℤ n
    → restore_from inv stack (some n) (some max_charges)
      ≡ (record inv { items = set_charges stack.instance_id charges inv.items }, n)
unfolding restore_from
restore_from_lem inv stack max_charges charges n at below positive =
    let all = restored_all max_charges charges n below positive in
    let cur : charges_of stack ≡ charges -ℤ n = ap (get_or_default (pos 0)) at in
    let by : restored_by max_charges (charges_of stack) (some n) ≡ n =
      ap (λ c. restored_by max_charges c (some n)) cur ∙ all.0 in
    let sum : charges_of stack +ℤ restored_by max_charges (charges_of stack) (some n) ≡ charges =
      ap (λ c. c +ℤ restored_by max_charges (charges_of stack) (some n)) cur
      ∙ ap (λ r. (charges -ℤ n) +ℤ r) by
      ∙ all.1 in
    cc (by, sum)

-- Of a charged item with at least `n` charges exactly `n` are expended; restoring `n` gives exactly these
-- back, and the pool is what it was.
pub expend_charges-restore_charges :
    (inv : Inventory) (j : String) (stack : CarriedItem) (max_charges n : ℤ)
    → by_id inv j ≡ some stack
    → stack.max_charges ≡ some max_charges
    → charges_of stack ≤ℤ max_charges
    → pos 0 <ℤ n
    → n ≤ℤ charges_of stack
    → let spent = record inv { items = set_charges j (charges_of stack -ℤ n) inv.items } in
      (expend_charges inv j n ≡ some (spent, n))
      × (restore_charges spent j (some n)
          ≡ (record inv { items = set_charges j (charges_of stack) inv.items }, n))
unfolding expend_charges expend_from restore_charges
expend_charges-restore_charges inv j stack max_charges n found pool below positive enough =
    let same : stack.instance_id ≡ j = first-id j inv.items stack found in
    (ground (arith, found, pool, positive, enough, same), back)
  where
    spent : Inventory
    spent = record inv { items = set_charges j (charges_of stack -ℤ n) inv.items }

    less : CarriedItem
    less = record stack { charges = some (charges_of stack -ℤ n) }

    back :
        restore_charges
          (record inv { items = set_charges j (charges_of stack -ℤ n) inv.items })
          j
          (some n)
        ≡ (record inv { items = set_charges j (charges_of stack) inv.items }, n)
    back =
        ap
          (λ (o : Option CarriedItem). elim o as (λ x. Inventory × ℤ) [
            | none ↦ (spent, pos 0)
            | some it ↦ restore_from spent it (some n) it.max_charges
          ])
          (first-set_charges j (charges_of stack -ℤ n) inv.items stack found)
        ∙ ap (λ (m : Option ℤ). restore_from spent less (some n) m) pool
        ∙ restore_from_lem spent less max_charges (charges_of stack) n refl below positive
        ∙ ap
            (λ (k : String).
              (record inv { items = set_charges k (charges_of stack) spent.items }, n))
            (first-id j inv.items stack found)
        ∙ ap (λ (its : List CarriedItem). (record inv { items = its }, n))
            (set_charges_twice j (charges_of stack -ℤ n) (charges_of stack) inv.items)
