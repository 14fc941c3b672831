-- ===== src/Game/Inventory/Tidy.antt =====
-- Inventory of src/ai_dm/game/combatant_state.py: the slots and the attuned instances after any calls.
use ai_dm.Prelude.{
  ◌≤◌, true, false, not, Bool-cases, inl, inr, ◌≡◌, refl, ◌∙◌, ap, ◌⊎◌, Option, none, some, List,
  [], ◌∷◌, String, arith, str_eq, exists_in, keep, length,
}
use mathlib.Core.Path.{subst}
use ai_dm.Game.Inventory.{
  CarriedItem, EquipmentSlots, Inventory, has_id, holds, freed, free_main, free_off,
  clear_slots_for, remove_text, drop_all,
}
use ai_dm.Game.Inventory.Carrying.{
  is_carried, fits, distinct, AllCarried, fits-freed, AllCarried-remove_text,
}

-- The slots hold carried instances.
abbrev pub SlotsFit : List CarriedItem → EquipmentSlots → Type 0
SlotsFit items s =
    (fits items s.main_hand ≡ true)
    × (fits items s.off_hand ≡ true)
    × (fits items s.armor ≡ true)
    × (fits items s.shield ≡ true)
    × (fits items s.ammunition ≡ true)

-- Three carried instances at most are attuned, each once.
abbrev pub AttunedFit : List CarriedItem → List String → Type 0
AttunedFit items ids = AllCarried items ids × (distinct ids ≡ true) × (length ids ≤ 3)

abbrev pub IsTidy : Inventory → Type 0
IsTidy inv = SlotsFit inv.items inv.equipped × AttunedFit inv.items inv.attuned

module _ (items its : List CarriedItem)
    (more : (i : String) → is_carried items i ≡ true → is_carried its i ≡ true) where
  fits-more : (slot : Option String) → fits items slot ≡ true → fits its slot ≡ true
  fits-more none h = refl
  fits-more (some i) h = more i h

  AllCarried-more : (ids : List String) → AllCarried items ids → AllCarried its ids
  AllCarried-more [] h = tt
  AllCarried-more (i ∷ ids) h = (more i h.0, AllCarried-more ids h.1)

  -- Where no carried instance is lost the inventory stays tidy.
  pub IsTidy-more :
      (inv : Inventory) → inv.items ≡ items → IsTidy inv → IsTidy (record inv { items = its })
  IsTidy-more inv same (slots, attuned) =
      let was : SlotsFit items inv.equipped × AttunedFit items inv.attuned =
        subst (λ (t : List CarriedItem). SlotsFit t inv.equipped × AttunedFit t inv.attuned) same
          (slots, attuned) in
      let s = was.0 in
      (
        (
          fits-more inv.equipped.main_hand s.0,
          fits-more inv.equipped.off_hand s.1,
          fits-more inv.equipped.armor s.2,
          fits-more inv.equipped.shield s.3,
          fits-more inv.equipped.ammunition s.4,
        ),
        (AllCarried-more inv.attuned (was.1).0, (was.1).1, (was.1).2),
      )

main_cleared :
    (j : String) (s : EquipmentSlots) → (clear_slots_for j s).main_hand ≡ freed j s.main_hand
unfolding clear_slots_for free_main free_off holds
main_cleared j s = ground arith

off_cleared :
    (j : String) (s : EquipmentSlots)
    → ((clear_slots_for j s).off_hand ≡ none)
      ⊎ ((clear_slots_for j s).off_hand ≡ freed j s.off_hand)
unfolding clear_slots_for free_main free_off
off_cleared j s = ground arith

distinct-remove_text :
    (j : String) (ids : List String)
    → distinct ids ≡ true
    → (distinct (remove_text j ids) ≡ true)
      × ((i : String)
          → exists_in (str_eq i) ids ≡ false
          → exists_in (str_eq i) (remove_text j ids) ≡ false)
unfolding remove_text
distinct-remove_text j [] h = (refl, λ i g. refl)
distinct-remove_text j (i ∷ ids) h =
    let rest = distinct-remove_text j ids (ground (arith, h)) in
    elim (Bool-cases (str_eq i j)) [
      | inl e ↦ rw e (ground (arith, h), λ k g. ground (arith, g))
      | inr e ↦ rw e (ground (arith, h, rest.0, rest.1 i), λ k g. ground (arith, g, rest.1 k))
    ]

length-remove_text : (j : String) (ids : List String) → length (remove_text j ids) ≤ length ids
unfolding remove_text
length-remove_text j [] = omega arith
length-remove_text j (i ∷ ids) = ground (arith, length-remove_text j ids)

AllCarried-less :
    (items : List CarriedItem) (j : String) (ids : List String)
    → AllCarried items ids
    → AllCarried items (remove_text j ids)
unfolding remove_text
AllCarried-less items j [] h = tt
AllCarried-less items j (i ∷ ids) h = elim (Bool-cases (str_eq i j)) [
  | inl e ↦ rw e h.1
  | inr e ↦ rw e (h.0, AllCarried-less items j ids h.1)
]

pub AttunedFit-remove_text :
    (items : List CarriedItem) (j : String) (ids : List String)
    → AttunedFit items ids
    → AttunedFit items (remove_text j ids)
AttunedFit-remove_text items j ids h = (
  AllCarried-less items j ids h.0,
  (distinct-remove_text j ids h.1).0,
  omega (arith, h.2, length-remove_text j ids),
)

-- Removing a stack altogether takes its instance out of the slots and out of the attuned ones.
pub IsTidy-drop_all : (inv : Inventory) (j : String) → IsTidy inv → IsTidy (drop_all inv j)
unfolding drop_all clear_slots_for
IsTidy-drop_all inv j (s, a) = (
  (
    ap (fits kept) (main_cleared j inv.equipped)
        ∙ fits-freed inv.items j inv.equipped.main_hand s.0,
    off,
    fits-freed inv.items j inv.equipped.armor s.2,
    fits-freed inv.items j inv.equipped.shield s.3,
    fits-freed inv.items j inv.equipped.ammunition s.4,
  ),
  (
    AllCarried-remove_text inv.items j inv.attuned a.1 a.0,
    (distinct-remove_text j inv.attuned a.1).0,
    omega (arith, a.2, length-remove_text j inv.attuned),
  ),
)
  where
    kept : List CarriedItem
    kept = keep (λ it. not (has_id j it)) inv.items

    off :
        fits (keep (λ it. not (has_id j it)) inv.items) (clear_slots_for j inv.equipped).off_hand
        ≡ true
    off = elim (off_cleared j inv.equipped) [
      | inl e ↦ ap (fits (keep (λ it. not (has_id j it)) inv.items)) e
      | inr e ↦
          ap (fits (keep (λ it. not (has_id j it)) inv.items)) e
          ∙ fits-freed inv.items j inv.equipped.off_hand s.1
    ]
