-- ===== src/Game/Inventory/Slots.antt =====
-- What is left of an item that is dropped.
use ai_dm.Prelude.{
  Bool, false, not, ◌||◌, ◌≡◌, ap, ◌∙◌, refl, arith, Option, none, some, List, [], ◌∷◌, String,
  keep, exists_in, Bool-cases, inl, inr,
}
use ai_dm.Prelude.Int.{ℤ, pos, ◌≤ℤ◌, ◌<ℤ◌, min_ℤ}
use ai_dm.Game.Inventory.{
  CarriedItem, EquipmentSlots, Inventory, has_id, by_id, holds, freed, free_main, free_off,
  clear_slots_for, drop_all, drop, drop_found, dropped_qty,
}

-- Some slot holds the instance.
abbrev pub in_use : String → EquipmentSlots → Bool
in_use i s =
    holds i s.main_hand
    || (holds i s.off_hand || (holds i s.armor || (holds i s.shield || holds i s.ammunition)))

freed_lem : (i : String) (o : Option String) → holds i (freed i o) ≡ false
unfolding holds
freed_lem i none = refl
freed_lem i (some j) = ground arith

main_freed : (i : String) (s : EquipmentSlots) → holds i (free_main i s).main_hand ≡ false
unfolding free_main
main_freed i s = elim (Bool-cases (holds i s.main_hand)) [
  | inl e ↦ rw e (unfold holds in refl)
  | inr e ↦ rw e e
]

off_freed : (i : String) (s : EquipmentSlots) → holds i (free_off i s).off_hand ≡ false
unfolding free_off
off_freed i s = elim (Bool-cases (holds i s.off_hand)) [
  | inl e ↦ rw e (unfold holds in refl)
  | inr e ↦ rw e e
]

off_keeps_main : (i : String) (s : EquipmentSlots) → (free_off i s).main_hand ≡ s.main_hand
unfolding free_off
off_keeps_main i s = elim (Bool-cases (holds i s.off_hand)) [
  | inl e ↦ rw e refl
  | inr e ↦ rw e refl
]

hands_free :
    (i : String) (s : EquipmentSlots)
    → (holds i (free_off i (free_main i s)).main_hand ≡ false)
      × (holds i (free_off i (free_main i s)).off_hand ≡ false)
hands_free i s =
    (ap (holds i) (off_keeps_main i (free_main i s)) ∙ main_freed i s, off_freed i (free_main i s))

not_kept :
    (i : String) (its : List CarriedItem)
    → exists_in (has_id i) (keep (λ it. not (has_id i it)) its) ≡ false
not_kept i [] = refl
not_kept i (it ∷ its) = ground (arith, not_kept i its)

drop_all-frees :
    (inv : Inventory) (i : String)
    → (in_use i (drop_all inv i).equipped ≡ false)
      × (exists_in (has_id i) (drop_all inv i).items ≡ false)
unfolding drop_all clear_slots_for
drop_all-frees inv i =
    let h = hands_free i inv.equipped in
    (
      rw
          (
            h.0,
            h.1,
            freed_lem i inv.equipped.armor,
            freed_lem i inv.equipped.shield,
            freed_lem i inv.equipped.ammunition,
          )
          refl,
      not_kept i inv.items,
    )

drop_whole :
    (inv : Inventory) (i : String) (stack : CarriedItem) (q : ℤ)
    → by_id inv i ≡ some stack
    → pos 0 <ℤ stack.qty
    → stack.qty ≤ℤ q
    → drop inv i (some q) ≡ (drop_all inv i, some stack)
unfolding drop drop_found dropped_qty min_ℤ
drop_whole inv i stack q e p h = ground arith

-- When as many as a stack has, or more, are dropped, the stack is handed over whole, no slot holds it
-- any more, whichever slots it filled, and no item of its id is left.
pub drop-frees :
    (inv : Inventory) (i : String) (stack : CarriedItem) (q : ℤ)
    → by_id inv i ≡ some stack
    → pos 0 <ℤ stack.qty
    → stack.qty ≤ℤ q
    → ((drop inv i (some q)).1 ≡ some stack)
      × (in_use i (drop inv i (some q)).0.equipped ≡ false)
      × (exists_in (has_id i) (drop inv i (some q)).0.items ≡ false)
drop-frees inv i stack q e p h =
    let all = drop_all-frees inv i in rw (drop_whole inv i stack q e p h) (refl, all.0, all.1)
