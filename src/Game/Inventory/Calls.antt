-- ===== src/Game/Inventory/Calls.antt =====
-- Inventory of src/ai_dm/game/combatant_state.py: series of calls. A call that raises changes nothing.
use ai_dm.Prelude.{ℕ, Bool, Option, none, some, List, [], ◌∷◌, String}
use ai_dm.Prelude.Int.{ℤ}
use ai_dm.Game.Inventory.{Inventory, SlotName, drop, equip, unequip, attune, end_attunement}
use ai_dm.Game.Inventory.Charges.{expend_charges, restore_charges, consume_one}
use ai_dm.Game.Inventory.Giving.{Template, give, give_magic_item}

pub data Call : Type 0 where
  giving : Bool → String → ℤ → Option String → Option String → Call
  giving_magic : String → ℤ → Option String → Option String → Option String → Bool → Call
  dropping : String → Option ℤ → Call
  equipping : String → SlotName → Bool → Call
  unequipping : SlotName → Call
  attuning ending_attunement : String → Call
  expending : String → ℤ → Call
  restoring : String → Option ℤ → Call
  consuming : String → Call

abbrev pub after {ℓ} : {A : Type ℓ} → Inventory → Option (Inventory × A) → Inventory
after inv none = inv
after inv (some (next, a)) = next

abbrev pub after_equip : Inventory → Option Inventory → Inventory
after_equip inv none = inv
after_equip inv (some next) = next

module _ (digits : ℕ → String) (get_magic_item : String → Option Template) where
  unfoldable pub apply : Call → Inventory → Inventory
  unfolding give give_magic_item drop equip attune end_attunement expend_charges restore_charges
      consume_one unequip
  apply (giving magical item_key qty instance_id container) inv =
      after inv (give digits magical inv item_key qty instance_id container)
  apply (giving_magic magic_item_key qty base_item_key instance_id container identified) inv =
      after inv (
        give_magic_item digits get_magic_item inv magic_item_key qty base_item_key instance_id
          container identified)
  apply (dropping instance_id qty) inv = (drop inv instance_id qty).0
  apply (equipping instance_id slot two_handed) inv =
      after_equip inv (equip inv instance_id slot two_handed)
  apply (unequipping slot) inv = record inv { equipped = (unequip inv.equipped slot).0 }
  apply (attuning instance_id) inv = after inv (attune inv instance_id)
  apply (ending_attunement instance_id) inv = (end_attunement inv instance_id).0
  apply (expending instance_id n) inv = after inv (expend_charges inv instance_id n)
  apply (restoring instance_id n) inv = (restore_charges inv instance_id n).0
  apply (consuming instance_id) inv = (consume_one inv instance_id).0

  unfoldable pub run : List Call → Inventory → Inventory
  unfolding apply
  run [] inv = inv
  run (c ∷ cs) inv = run cs (apply c inv)
