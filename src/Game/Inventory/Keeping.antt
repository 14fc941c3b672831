-- ===== src/Game/Inventory/Keeping.antt =====
-- Inventory of src/ai_dm/game/combatant_state.py: every call keeps the inventory tidy.
use ai_dm.Prelude.{
  Bool, true, ◌&&◌, ◌||◌, Bool-cases, inl, inr, ◌≡◌, refl, ◌∙◌, Option, none, some, List, [], ◌∷◌,
  String, arith, if-cases, first,
}
use ai_dm.Prelude.Int.{ℤ, pos, leb_ℤ, ltb_ℤ, eq_ℤ, min_ℤ, ◌-ℤ◌}
use ai_dm.Game.Inventory.{
  CarriedItem, EquipmentSlots, Inventory, SlotName, main_hand_slot, off_hand_slot, armor_slot,
  shield_slot, ammunition_slot, has_id, take_from, drop_found, dropped_qty, equip_slot, same_hand,
  unequip,
}
use ai_dm.Game.Inventory.Charges.{set_charges, use_up, expend_from, restore_from, charges_of}
use ai_dm.Game.Inventory.Calls.{after}
use ai_dm.Game.Inventory.Carrying.{is_carried, fits, is_carried-take_from, is_carried-set_charges}
use ai_dm.Game.Inventory.Tidy.{SlotsFit, IsTidy, IsTidy-more, IsTidy-drop_all}

IsTidy-take_from :
    (inv : Inventory) (j : String) (n : ℤ)
    → IsTidy inv
    → IsTidy (record inv { items = take_from j n inv.items })
IsTidy-take_from inv j n h =
    IsTidy-more inv.items (take_from j n inv.items)
      (λ i c. is_carried-take_from j n inv.items i ∙ c) inv refl h

IsTidy-set_charges :
    (inv : Inventory) (j : String) (n : ℤ)
    → IsTidy inv
    → IsTidy (record inv { items = set_charges j n inv.items })
IsTidy-set_charges inv j n h =
    IsTidy-more inv.items (set_charges j n inv.items)
      (λ i c. is_carried-set_charges j n inv.items i ∙ c) inv refl h

pub drop_found-IsTidy :
    (inv : Inventory) (j : String) (qty : Option ℤ) (stack : CarriedItem)
    → IsTidy inv
    → IsTidy (drop_found inv j qty stack).0
unfolding drop_found
drop_found-IsTidy inv j qty stack h =
    if-cases (λ (out : Inventory × Option CarriedItem). IsTidy out.0)
      (leb_ℤ (dropped_qty qty stack.qty) (pos 0)) (λ e. h)
      (λ e.
        if-cases (λ (out : Inventory × Option CarriedItem). IsTidy out.0)
          (eq_ℤ (dropped_qty qty stack.qty) stack.qty) (λ f. IsTidy-drop_all inv j h)
          (λ f. IsTidy-take_from inv j (dropped_qty qty stack.qty) h))

pub use_up-IsTidy :
    (inv : Inventory) (stack : CarriedItem) (n : ℤ) → IsTidy inv → IsTidy (use_up inv stack n).0
unfolding use_up
use_up-IsTidy inv stack n h =
    if-cases (λ (out : Inventory × ℤ). IsTidy out.0) (leb_ℤ n (pos 0)) (λ e. h)
      (λ e.
        if-cases (λ (out : Inventory × ℤ). IsTidy out.0)
          (leb_ℤ (stack.qty -ℤ min_ℤ n stack.qty) (pos 0))
          (λ f. IsTidy-drop_all inv stack.instance_id h)
          (λ f. IsTidy-take_from inv stack.instance_id (min_ℤ n stack.qty) h))

pub expend_from-IsTidy :
    (inv : Inventory) (stack : CarriedItem) (n : ℤ) (m : Option ℤ)
    → IsTidy inv
    → IsTidy (after inv (expend_from inv stack n m))
unfolding expend_from
expend_from-IsTidy inv stack n none h =
    if-cases (λ (out : Option (Inventory × ℤ)). IsTidy (after inv out)) stack.consumable
      (λ e. use_up-IsTidy inv stack n h) (λ e. h)
expend_from-IsTidy inv stack n (some m) h =
    if-cases (λ (out : Option (Inventory × ℤ)). IsTidy (after inv out))
      (leb_ℤ n (pos 0) || ltb_ℤ (charges_of stack) n) (λ e. h)
      (λ e. IsTidy-set_charges inv stack.instance_id (charges_of stack -ℤ n) h)

pub restore_from-IsTidy :
    (inv : Inventory) (stack : CarriedItem) (n m : Option ℤ)
    → IsTidy inv
    → IsTidy (restore_from inv stack n m).0
unfolding restore_from
restore_from-IsTidy inv stack n none h = h
restore_from-IsTidy inv stack n (some m) h = IsTidy-set_charges inv stack.instance_id _ h

-- A stack that is found is carried.
pub found_carried :
    (items : List CarriedItem) (j : String) (it : CarriedItem)
    → first (has_id j) items ≡ some it
    → is_carried items j ≡ true
found_carried [] j it found = cc
found_carried (x ∷ items) j it found = elim (Bool-cases (has_id j x)) [
  | inl e ↦ ground (arith, e)
  | inr e ↦ ground (arith, e, found, found_carried items j it (ground (arith, e, found)))
]

pub equip_slot-SlotsFit :
    (items : List CarriedItem) (s : EquipmentSlots) (j : String) (slot : SlotName)
    (two_handed : Bool)
    → is_carried items j ≡ true
    → SlotsFit items s
    → SlotsFit items (equip_slot s j slot two_handed)
unfolding equip_slot
equip_slot-SlotsFit items s j main_hand_slot two_handed c h = (
  c,
  if-cases (λ (o : Option String). fits items o ≡ true) two_handed (λ e. c) (λ e. h.1),
  h.2,
  h.3,
  h.4,
)
equip_slot-SlotsFit items s j off_hand_slot two_handed c h = (
  if-cases (λ (o : Option String). fits items o ≡ true)
      (s.two_handed && same_hand s.main_hand s.off_hand) (λ e. refl) (λ e. h.0),
  c,
  h.2,
  h.3,
  h.4,
)
equip_slot-SlotsFit items s j armor_slot two_handed c h = (h.0, h.1, c, h.3, h.4)
equip_slot-SlotsFit items s j shield_slot two_handed c h = (h.0, h.1, h.2, c, h.4)
equip_slot-SlotsFit items s j ammunition_slot two_handed c h = (h.0, h.1, h.2, h.3, c)

pub unequip-SlotsFit :
    (items : List CarriedItem) (s : EquipmentSlots) (slot : SlotName)
    → SlotsFit items s
    → SlotsFit items (unequip s slot).0
unfolding unequip
unequip-SlotsFit items s main_hand_slot h = (
  refl,
  if-cases (λ (o : Option String). fits items o ≡ true) s.two_handed (λ e. refl) (λ e. h.1),
  h.2,
  h.3,
  h.4,
)
unequip-SlotsFit items s off_hand_slot h = (h.0, refl, h.2, h.3, h.4)
unequip-SlotsFit items s armor_slot h = (h.0, h.1, refl, h.3, h.4)
unequip-SlotsFit items s shield_slot h = (h.0, h.1, h.2, refl, h.4)
unequip-SlotsFit items s ammunition_slot h = (h.0, h.1, h.2, h.3, refl)
