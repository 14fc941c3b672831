-- ===== src/Game/Inventory/Giving.antt =====
-- Inventory of src/ai_dm/game/combatant_state.py: new stacks. The digits of a number and the catalogue
-- of magic items (rules/magic_items.py, read from the assets) are arguments. `qty` is an `int`.
use ai_dm.Prelude.{
  ℕ, zero, suc, ◌+◌, Bool, true, false, not, ◌&&◌, ◌||◌, Option, none, some, List, [], ◌∷◌, ◌++◌,
  String, str_eq, if◌then◌else◌, exists_in, is_some, length,
}
use Prim.Native.String.{◌++◌ as str_append}
use ai_dm.Prelude.Int.{ℤ, pos, ◌+ℤ◌, max_ℤ}
use ai_dm.Game.Inventory.{CarriedItem, new_item, EquipmentSlots, Inventory, has_id, holds}

module _ (digits : ℕ → String) where
  -- `f"{item_key}#{n}"`
  abbrev pub candidate : String → ℕ → String
  candidate item_key n = str_append item_key (str_append "#" (digits n))

  abbrev pub is_used : String → List CarriedItem → Bool
  is_used cand existing = exists_in (has_id cand) existing

  -- The loop, for at most `fuel` candidates.
  unfoldable pub search : ℕ → ℕ → String → List CarriedItem → Option String
  search zero n item_key existing = none
  search (suc fuel) n item_key existing =
      let later = search fuel (n + 1) item_key existing in
      if is_used (candidate item_key n) existing then later else some (candidate item_key n)

  -- One candidate more than there are stacks is enough.
  unfoldable pub new_instance_id : String → List CarriedItem → Option String
  unfolding search
  new_instance_id item_key existing = search (suc (length existing)) 1 item_key existing

abbrev same_container : Option String → Option String → Bool
same_container none none = true
same_container (some a) (some b) = str_eq a b
same_container _ _ = false

-- `it.instance_id in equipped_ids`
abbrev pub is_equipped : String → EquipmentSlots → Bool
is_equipped i s =
    holds i s.main_hand
    || (holds i s.off_hand || (holds i s.armor || (holds i s.shield || holds i s.ammunition)))

-- The stack that a plain item is added to.
unfoldable pub stacks_with : Inventory → String → Option String → CarriedItem → Bool
stacks_with inv item_key container it =
    str_eq it.item_key item_key
    && (not (is_some it.magic_item_key)
        && (not (
              is_equipped it.instance_id inv.equipped
              || exists_in (str_eq it.instance_id) inv.attuned)
            && same_container it.container container))

-- The items after the loop of `give`, with the stack that took the quantity.
unfoldable pub add_to_stack :
    (CarriedItem → Bool) → ℤ → List CarriedItem → Option (List CarriedItem × CarriedItem)
add_to_stack fits qty [] = none
add_to_stack fits qty (it ∷ its) =
    let rest = add_to_stack fits qty its in
    let more = record it { qty = it.qty +ℤ qty } in
    if fits it
    then some (more ∷ its, more)
    else elim rest [ none ↦ none | some found ↦ some (it ∷ found.0, found.1) ]

-- `instance_id or new`
abbrev pub id_or : Option String → Option String → Option String
id_or none fresh = fresh
id_or (some i) fresh = if str_eq i "" then fresh else some i

abbrev pub put_stack :
    Inventory → Option String → (String → CarriedItem) → Option (Inventory × CarriedItem)
put_stack inv none make = none
put_stack inv (some i) make = some (record inv { items = inv.items ++ make i ∷ [] }, make i)

module _ (digits : ℕ → String) where
  unfoldable pub add_new :
      Inventory → String → Option String → (String → CarriedItem) → Option (Inventory × CarriedItem)
  unfolding new_instance_id
  add_new inv item_key instance_id make =
      put_stack inv (id_or instance_id (new_instance_id digits item_key inv.items)) make

  -- `give`; `magical` is what the catalogue says of the key. None would be a loop that never ends.
  unfoldable pub give :
      Bool
      → Inventory
      → String
      → ℤ
      → Option String
      → Option String
      → Option (Inventory × CarriedItem)
  unfolding add_to_stack stacks_with add_new
  give magical inv item_key qty instance_id container =
      let fresh = add_new inv item_key instance_id (λ i. new_item i item_key qty container) in
      if magical
      then fresh
      else elim (add_to_stack (stacks_with inv item_key container) qty inv.items) [
        | none ↦ fresh
        | some found ↦ some (record inv { items = found.0 }, found.1)
      ]

-- What `give_magic_item` reads of a template; the bonuses are `or 0`.
pub record Template : Type 0 where
  pub base_item_required : Bool
  pub base_item : Option String
  pub weapon_bonus : ℤ
  pub armor_bonus : ℤ
  pub save_bonus : ℤ
  pub requires_attunement : Bool
  pub consumable : Bool
  pub rarity : Option String
  pub max_charges : Option ℤ

-- `a or b`
abbrev or_key : Option String → String → String
or_key none b = b
or_key (some a) b = if str_eq a "" then b else a

-- The key of the stack, or the `ValueError` for a missing base item.
abbrev pub inventory_key : Template → String → Option String → Option String
inventory_key tpl magic_item_key base_item_key =
    if tpl.base_item_required
    then if str_eq (or_key base_item_key "") "" then none else base_item_key
    else some (or_key tpl.base_item magic_item_key)

abbrev pub magic_stack :
    Template → String → ℤ → Option String → Bool → String → String → CarriedItem
magic_stack tpl magic_item_key qty container identified item_key instance_id = record {
  instance_id = instance_id;
  item_key = item_key;
  qty = if not tpl.consumable then max_ℤ (pos 1) qty else qty;
  container = container;
  notes = none;
  magic_bonus = tpl.weapon_bonus;
  requires_attunement = tpl.requires_attunement;
  magic_item_key = some magic_item_key;
  rarity = tpl.rarity;
  consumable = tpl.consumable;
  charges = tpl.max_charges;
  max_charges = tpl.max_charges;
  armor_bonus = tpl.armor_bonus;
  save_bonus = tpl.save_bonus;
  identified = identified;
}

module _ (digits : ℕ → String) (get_magic_item : String → Option Template) where
  unfoldable pub give_template :
      Inventory
      → Template
      → String
      → ℤ
      → Option String
      → Option String
      → Bool
      → Option String
      → Option (Inventory × CarriedItem)
  unfolding add_new
  give_template inv tpl magic_item_key qty instance_id container identified none = none
  give_template inv tpl magic_item_key qty instance_id container identified (some item_key) =
      add_new digits inv item_key instance_id
        (magic_stack tpl magic_item_key qty container identified item_key)

  -- none: a `ValueError`.
  unfoldable pub give_magic_item :
      Inventory
      → String
      → ℤ
      → Option String
      → Option String
      → Option String
      → Bool
      → Option (Inventory × CarriedItem)
  unfolding give_template
  give_magic_item inv magic_item_key qty base_item_key instance_id container identified =
      elim (get_magic_item magic_item_key) [
        | none ↦ none
        | some tpl ↦
            give_template inv tpl magic_item_key qty instance_id container identified
              (inventory_key tpl magic_item_key base_item_key)
      ]
