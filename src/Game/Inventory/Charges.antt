-- ===== src/Game/Inventory/Charges.antt =====
-- Inventory of src/ai_dm/game/combatant_state.py: charges and consumables.
use ai_dm.Prelude.{
  Bool, false, ◌||◌, Option, none, some, List, [], ◌∷◌, String, if◌then◌else◌, get_or_default,
}
use ai_dm.Prelude.Int.{ℤ, pos, ◌+ℤ◌, ◌-ℤ◌, leb_ℤ, ltb_ℤ, min_ℤ, max_ℤ}
use ai_dm.Game.Inventory.{CarriedItem, Inventory, has_id, by_id, take_from, drop_all}

-- `stack.charges = charges` in place.
unfoldable pub set_charges : String → ℤ → List CarriedItem → List CarriedItem
set_charges instance_id charges [] = []
set_charges instance_id charges (it ∷ its) =
    let rest = set_charges instance_id charges its in
    if has_id instance_id it then record it { charges = some charges } ∷ its else it ∷ rest

-- `stack.charges or 0`
abbrev pub charges_of : CarriedItem → ℤ
charges_of stack = get_or_default (pos 0) stack.charges

-- `_consume_one`
unfoldable pub use_up : Inventory → CarriedItem → ℤ → Inventory × ℤ
unfolding take_from drop_all
use_up inv stack n =
    let used = min_ℤ n stack.qty in
    if leb_ℤ n (pos 0)
    then (inv, pos 0)
    else if leb_ℤ (stack.qty -ℤ used) (pos 0)
    then (drop_all inv stack.instance_id, used)
    else (record inv { items = take_from stack.instance_id used inv.items }, used)

unfoldable pub expend_from : Inventory → CarriedItem → ℤ → Option ℤ → Option (Inventory × ℤ)
unfolding use_up set_charges
expend_from inv stack n none = if stack.consumable then some (use_up inv stack n) else none
expend_from inv stack n (some max_charges) =
    if leb_ℤ n (pos 0) || ltb_ℤ (charges_of stack) n
    then some (inv, pos 0)
    else some
        (record inv { items = set_charges stack.instance_id (charges_of stack -ℤ n) inv.items }, n)

-- none: the `ValueError`.
unfoldable pub expend_charges : Inventory → String → ℤ → Option (Inventory × ℤ)
unfolding expend_from
expend_charges inv instance_id n = elim (by_id inv instance_id) [
  | none ↦ none
  | some stack ↦ expend_from inv stack n stack.max_charges
]

abbrev pub restored_by : ℤ → ℤ → Option ℤ → ℤ
restored_by max_charges cur none = max_charges -ℤ cur
restored_by max_charges cur (some n) = max_ℤ (pos 0) (min_ℤ (max_charges -ℤ cur) n)

unfoldable pub restore_from : Inventory → CarriedItem → Option ℤ → Option ℤ → Inventory × ℤ
unfolding set_charges
restore_from inv stack n none = (inv, pos 0)
restore_from inv stack n (some max_charges) =
    let restored = restored_by max_charges (charges_of stack) n in
    (
      record inv { items = set_charges stack.instance_id (charges_of stack +ℤ restored) inv.items },
      restored,
    )

unfoldable pub restore_charges : Inventory → String → Option ℤ → Inventory × ℤ
unfolding restore_from
restore_charges inv instance_id n = elim (by_id inv instance_id) [
  | none ↦ (inv, pos 0)
  | some stack ↦ restore_from inv stack n stack.max_charges
]

unfoldable pub consume_one : Inventory → String → Inventory × Bool
unfolding use_up
consume_one inv instance_id = elim (by_id inv instance_id) [
  | none ↦ (inv, false)
  | some stack ↦
      if stack.consumable
      then ((use_up inv stack (pos 1)).0, ltb_ℤ (pos 0) (use_up inv stack (pos 1)).1)
      else (inv, false)
]
