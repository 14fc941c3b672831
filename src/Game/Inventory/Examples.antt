-- ===== src/Game/Inventory/Examples.antt =====
-- Runs of Inventory of src/ai_dm/game/combatant_state.py, with the digits of a number in strokes.
use Prim.Native.String.{[], ◌∷◌}
use ai_dm.Prelude.{
  ℕ, zero, suc, ◌≡◌, refl, ap, arith, true, false, Option, none, some, List, [], ◌∷◌, String,
  exists_in,
}
use ai_dm.Prelude.Int.{ℤ, pos, ◌-ℤ◌, max_ℤ, min_ℤ}
use ai_dm.Prelude.Dict.{put}
use ai_dm.Game.Inventory.{
  CarriedItem, new_item, Inventory, main_hand_slot, off_hand_slot, drop, has_id,
}
use ai_dm.Game.Inventory.Slots.{in_use, drop-frees}
use ai_dm.Game.Inventory.Giving.{Template, is_used, new_instance_id}
use ai_dm.Game.Inventory.Charges.{expend_charges, restore_charges, set_charges}
use ai_dm.Game.Inventory.Calls.{
  Call, giving, giving_magic, dropping, equipping, unequipping, attuning, ending_attunement,
  expending, restoring, consuming, run,
}
use ai_dm.Game.Inventory.Tidy.{IsTidy}
use ai_dm.Game.Inventory.Invariant.{run-IsTidy}
use ai_dm.Game.Inventory.Dawn.{dawn_recharge, AllWithin, dawn_recharge-AllWithin, recharge_each}
use ai_dm.Game.Inventory.Pools.{expend_charges-restore_charges}
use ai_dm.Game.Inventory.Ids.{new_instance_id-fresh}

abbrev axe : CarriedItem
axe = new_item "axe#1" "greataxe" (pos 1) none

abbrev pack : Inventory
pack = record {
  items = axe ∷ [];
  equipped = record {
    main_hand = some "axe#1";
    off_hand = some "axe#1";
    two_handed = true;
    armor = none;
    shield = none;
    ammunition = none;
  };
  attuned = "axe#1" ∷ [];
}

drop-frees_example :
    ((drop pack "axe#1" (some (pos 5))).1 ≡ some axe)
    × (in_use "axe#1" (drop pack "axe#1" (some (pos 5))).0.equipped ≡ false)
    × (exists_in (has_id "axe#1") (drop pack "axe#1" (some (pos 5))).0.items ≡ false)
drop-frees_example = drop-frees pack "axe#1" axe (pos 5) refl (omega arith) (omega arith)

abbrev strokes : ℕ → String
strokes zero = []
strokes (suc n) = "|" ∷ strokes n

abbrev size : String → ℕ
size [] = 0
size (c ∷ s) = suc (size s)

size-strokes : (n : ℕ) → size (strokes n) ≡ n
size-strokes zero = refl
size-strokes (suc n) = ap suc (size-strokes n)

count_by_strokes : (a b : ℕ) → strokes a ≡ strokes b → a ≡ b
count_by_strokes a b h = omega (arith, ap size h, size-strokes a, size-strokes b)

abbrev wand_of_webs : Template
wand_of_webs = record {
  base_item_required = false;
  base_item = some "wand";
  weapon_bonus = pos 0;
  armor_bonus = pos 0;
  save_bonus = pos 0;
  requires_attunement = true;
  consumable = false;
  rarity = some "uncommon";
  max_charges = some (pos 7);
}

abbrev catalogue : String → Option Template
catalogue key = some wand_of_webs

abbrev wand : CarriedItem
wand = record (new_item "wand#|" "wand" (pos 1) none) {
  requires_attunement = true;
  charges = some (pos 7);
  max_charges = some (pos 7);
}

abbrev satchel : Inventory
satchel = record pack { items = axe ∷ wand ∷ [] }

abbrev day : List Call
day =
    giving_magic "wand_of_webs" (pos 1) none none none true
    ∷ attuning "wand#|"
    ∷ expending "wand#|" (pos 2)
    ∷ giving false "torch" (pos 5) none none
    ∷ equipping "torch#|" off_hand_slot false
    ∷ dropping "torch#|" none
    ∷ consuming "axe#1"
    ∷ unequipping main_hand_slot
    ∷ restoring "wand#|" none
    ∷ ending_attunement "axe#1"
    ∷ []

run-IsTidy_example : IsTidy (run strokes catalogue day pack)
run-IsTidy_example =
    run-IsTidy strokes catalogue day pack
      ((refl, refl, refl, refl, refl), ((refl, tt), refl, omega arith))

expend_charges-restore_charges_example :
    (expend_charges satchel "wand#|" (pos 3)
      ≡ some
          (record satchel { items = set_charges "wand#|" (pos 7 -ℤ pos 3) satchel.items }, pos 3))
    × (restore_charges
          (record satchel { items = set_charges "wand#|" (pos 7 -ℤ pos 3) satchel.items })
          "wand#|"
          (some (pos 3))
        ≡ (record satchel { items = set_charges "wand#|" (pos 7) satchel.items }, pos 3))
expend_charges-restore_charges_example =
    expend_charges-restore_charges satchel "wand#|" wand (pos 7) (pos 3) refl refl (omega arith)
      (omega arith) (omega arith)

new_instance_id-fresh_example :
    (id : String) × (new_instance_id strokes "axe" (axe ∷ wand ∷ []) ≡ some id)
    × (is_used strokes id (axe ∷ wand ∷ []) ≡ false)
new_instance_id-fresh_example =
    new_instance_id-fresh strokes "axe" (axe ∷ wand ∷ []) count_by_strokes

abbrev used_wand : CarriedItem
used_wand = record wand { charges = some (pos 2); magic_item_key = some "wand_of_webs" }

abbrev evening : Inventory
evening = record pack { items = axe ∷ used_wand ∷ [] }

abbrev regained_at_dawn : CarriedItem → Option ℤ
regained_at_dawn it = some (pos 20)

dawn_recharge_restores : (dawn_recharge regained_at_dawn evening).1 ≡ ("wand#|", pos 5) ∷ []
unfolding dawn_recharge recharge_each restore_charges put max_ℤ min_ℤ ◌-ℤ◌
dawn_recharge_restores = refl

dawn_recharge-AllWithin_example : AllWithin (dawn_recharge regained_at_dawn evening).0.items
dawn_recharge-AllWithin_example =
    dawn_recharge-AllWithin regained_at_dawn evening (tt, (omega arith, tt))
