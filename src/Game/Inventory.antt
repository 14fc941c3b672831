-- ===== src/Game/Inventory.antt =====
-- Inventory of src/ai_dm/game/combatant_state.py: stacks, equipment slots and attunement. The limit of
-- attuned items is that of assets/srd5_2/core/attunement.json. Coins are in Rules/Currency.
pub mod Giving
pub mod Charges
pub mod Dawn
pub mod Calls
pub mod Slots
pub mod Carrying
pub mod Tidy
pub mod Keeping
pub mod Invariant
pub mod Pools
pub mod Ids
mod Examples
use ai_dm.Prelude.{
  ℕ, Bool, true, false, not, ◌&&◌, ◌||◌, Option, none, some, List, [], ◌∷◌, ◌++◌, String, str_eq,
  if◌then◌else◌, first, keep, exists_in, length, leb,
}
use ai_dm.Prelude.Int.{ℤ, pos, ◌-ℤ◌, leb_ℤ, eq_ℤ, min_ℤ}

pub record CarriedItem : Type 0 where
  pub instance_id : String
  pub item_key : String
  pub qty : ℤ
  pub container : Option String
  pub notes : Option String
  pub magic_bonus : ℤ
  pub requires_attunement : Bool
  pub magic_item_key : Option String
  pub rarity : Option String
  pub consumable : Bool
  pub charges : Option ℤ
  pub max_charges : Option ℤ
  pub armor_bonus : ℤ
  pub save_bonus : ℤ
  pub identified : Bool

-- `CarriedItem(...)` with the other fields at their defaults.
abbrev pub new_item : String → String → ℤ → Option String → CarriedItem
new_item instance_id item_key qty container = record {
  instance_id = instance_id;
  item_key = item_key;
  qty = qty;
  container = container;
  notes = none;
  magic_bonus = pos 0;
  requires_attunement = false;
  magic_item_key = none;
  rarity = none;
  consumable = false;
  charges = none;
  max_charges = none;
  armor_bonus = pos 0;
  save_bonus = pos 0;
  identified = true;
}

pub record EquipmentSlots : Type 0 where
  pub main_hand : Option String
  pub off_hand : Option String
  pub two_handed : Bool
  pub armor : Option String
  pub shield : Option String
  pub ammunition : Option String

pub record Inventory : Type 0 where
  pub items : List CarriedItem
  pub equipped : EquipmentSlots
  pub attuned : List String

pub data SlotName : Type 0 where
  main_hand_slot off_hand_slot armor_slot shield_slot ammunition_slot : SlotName

abbrev pub max_attuned : ℕ
max_attuned = 3

abbrev pub has_id : String → CarriedItem → Bool
has_id instance_id it = str_eq it.instance_id instance_id

abbrev pub by_id : Inventory → String → Option CarriedItem
by_id inv instance_id = first (has_id instance_id) inv.items

-- `slot == instance_id`
unfoldable pub holds : String → Option String → Bool
holds instance_id none = false
holds instance_id (some i) = str_eq i instance_id

abbrev pub freed : String → Option String → Option String
freed instance_id slot = if holds instance_id slot then none else slot

-- The first two tests of `_clear_slots_for`, one after the other.
unfoldable pub free_main : String → EquipmentSlots → EquipmentSlots
free_main instance_id s =
    if holds instance_id s.main_hand
    then record s {
      main_hand = none;
      off_hand = if s.two_handed then none else s.off_hand;
      two_handed = false;
    }
    else s

unfoldable pub free_off : String → EquipmentSlots → EquipmentSlots
free_off instance_id s =
    if holds instance_id s.off_hand then record s { off_hand = none; two_handed = false } else s

unfoldable pub clear_slots_for : String → EquipmentSlots → EquipmentSlots
unfolding free_main free_off
clear_slots_for instance_id s =
    let hands = free_off instance_id (free_main instance_id s) in
    record hands {
      armor = freed instance_id s.armor;
      shield = freed instance_id s.shield;
      ammunition = freed instance_id s.ammunition;
    }

-- `list.remove`, where a missing text is left alone.
unfoldable pub remove_text : String → List String → List String
remove_text t [] = []
remove_text t (s ∷ ss) = let rest = remove_text t ss in if str_eq s t then ss else s ∷ rest

-- The stack `stack.qty -= n` in place.
unfoldable pub take_from : String → ℤ → List CarriedItem → List CarriedItem
take_from instance_id n [] = []
take_from instance_id n (it ∷ its) =
    let rest = take_from instance_id n its in
    if has_id instance_id it then record it { qty = it.qty -ℤ n } ∷ its else it ∷ rest

-- The whole stack goes: slots, attunement and items.
unfoldable pub drop_all : Inventory → String → Inventory
unfolding clear_slots_for remove_text
drop_all inv instance_id = record {
  items = keep (λ it. not (has_id instance_id it)) inv.items;
  equipped = clear_slots_for instance_id inv.equipped;
  attuned = remove_text instance_id inv.attuned;
}

-- How many go: all of them if nothing is said.
unfoldable pub dropped_qty : Option ℤ → ℤ → ℤ
dropped_qty none qty = qty
dropped_qty (some q) qty = min_ℤ q qty

-- `drop` of a stack that was found.
unfoldable pub drop_found :
    Inventory → String → Option ℤ → CarriedItem → Inventory × Option CarriedItem
unfolding drop_all take_from dropped_qty
drop_found inv instance_id qty stack =
    let n = dropped_qty qty stack.qty in
    if leb_ℤ n (pos 0)
    then (inv, none)
    else if eq_ℤ n stack.qty
    then (drop_all inv instance_id, some stack)
    else (
      record inv { items = take_from instance_id n inv.items },
      some (new_item stack.instance_id stack.item_key n stack.container),
    )

unfoldable pub drop : Inventory → String → Option ℤ → Inventory × Option CarriedItem
unfolding drop_found
drop inv instance_id qty = elim (by_id inv instance_id) [
  | none ↦ (inv, none)
  | some stack ↦ drop_found inv instance_id qty stack
]

unfoldable pub same_hand : Option String → Option String → Bool
same_hand none none = true
same_hand (some a) (some b) = str_eq a b
same_hand _ _ = false

unfoldable pub equip_slot : EquipmentSlots → String → SlotName → Bool → EquipmentSlots
unfolding same_hand
equip_slot s instance_id main_hand_slot two_handed = record s {
  main_hand = some instance_id;
  two_handed = two_handed;
  off_hand = if two_handed then some instance_id else s.off_hand;
}
equip_slot s instance_id off_hand_slot two_handed = record s {
  main_hand = if s.two_handed && same_hand s.main_hand s.off_hand then none else s.main_hand;
  two_handed = false;
  off_hand = some instance_id;
}
equip_slot s instance_id armor_slot two_handed = record s { armor = some instance_id }
equip_slot s instance_id shield_slot two_handed = record s { shield = some instance_id }
equip_slot s instance_id ammunition_slot two_handed = record s { ammunition = some instance_id }

-- `none` is the ValueError for an unknown instance.
unfoldable pub equip : Inventory → String → SlotName → Bool → Option Inventory
unfolding equip_slot
equip inv instance_id slot two_handed = elim (by_id inv instance_id) [
  | none ↦ none
  | some it ↦ some (record inv { equipped = equip_slot inv.equipped instance_id slot two_handed })
]

unfoldable pub unequip : EquipmentSlots → SlotName → EquipmentSlots × Option String
unequip s main_hand_slot = (
  record s {
    main_hand = none;
    off_hand = if s.two_handed then none else s.off_hand;
    two_handed = false;
  },
  s.main_hand,
)
unequip s off_hand_slot = (record s { off_hand = none; two_handed = false }, s.off_hand)
unequip s armor_slot = (record s { armor = none }, s.armor)
unequip s shield_slot = (record s { shield = none }, s.shield)
unequip s ammunition_slot = (record s { ammunition = none }, s.ammunition)

-- `none` is the ValueError for an unknown instance.
unfoldable pub attune : Inventory → String → Option (Inventory × Bool)
attune inv instance_id = elim (by_id inv instance_id) [
  | none ↦ none
  | some it ↦ some (
      if exists_in (str_eq instance_id) inv.attuned
      then (inv, true)
      else if leb max_attuned (length inv.attuned)
      then (inv, false)
      else (record inv { attuned = inv.attuned ++ instance_id ∷ [] }, true))
]

unfoldable pub end_attunement : Inventory → String → Inventory × Bool
unfolding remove_text
end_attunement inv instance_id = (
  record inv { attuned = remove_text instance_id inv.attuned },
  exists_in (str_eq instance_id) inv.attuned,
)
