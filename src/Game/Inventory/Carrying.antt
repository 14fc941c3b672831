-- ===== src/Game/Inventory/Carrying.antt =====
-- Inventory of src/ai_dm/game/combatant_state.py: which instances are carried, after the changes to the
-- list of stacks.
use ai_dm.Prelude.{
  Bool, true, false, not, ◌&&◌, Bool-cases, inl, inr, ◌≡◌, refl, ◌∙◌, Option, none, some, List, [],
  ◌∷◌, ◌++◌, String, arith, str_eq, eq_iff, exists_in, keep, All,
}
use ai_dm.Prelude.Int.{ℤ}
use ai_dm.Game.Inventory.{CarriedItem, has_id, holds, freed, remove_text, take_from}
use ai_dm.Game.Inventory.Charges.{set_charges}

abbrev pub is_carried : List CarriedItem → String → Bool
is_carried items i = exists_in (has_id i) items

-- A slot is empty or holds a carried instance.
abbrev pub fits : List CarriedItem → Option String → Bool
fits items none = true
fits items (some i) = is_carried items i

-- Each text stands there once.
abbrev pub distinct : List String → Bool
distinct [] = true
distinct (t ∷ ts) = not (exists_in (str_eq t) ts) && distinct ts

-- Each of the instances is carried.
abbrev pub AllCarried : List CarriedItem → List String → Type 0
AllCarried items ids = All (λ (i : String). is_carried items i ≡ true) ids

pub is_carried-take_from :
    (j : String) (n : ℤ) (items : List CarriedItem) (i : String)
    → is_carried (take_from j n items) i ≡ is_carried items i
unfolding take_from
is_carried-take_from j n [] i = refl
is_carried-take_from j n (it ∷ items) i = ground (arith, is_carried-take_from j n items i)

pub is_carried-set_charges :
    (j : String) (n : ℤ) (items : List CarriedItem) (i : String)
    → is_carried (set_charges j n items) i ≡ is_carried items i
unfolding set_charges
is_carried-set_charges j n [] i = refl
is_carried-set_charges j n (it ∷ items) i = ground (arith, is_carried-set_charges j n items i)

pub is_carried-more :
    (items : List CarriedItem) (it : CarriedItem) (i : String)
    → is_carried items i ≡ true
    → is_carried (items ++ it ∷ []) i ≡ true
is_carried-more [] it i h = cc
is_carried-more (x ∷ items) it i h = elim (Bool-cases (has_id i x)) [
  | inl e ↦ ground (arith, e)
  | inr e ↦ ground (arith, e, h, is_carried-more items it i (ground (arith, e, h)))
]

-- The stacks of other ids stay when those of an id are taken out.
pub is_carried-keep :
    (items : List CarriedItem) (j i : String)
    → str_eq i j ≡ false
    → is_carried (keep (λ it. not (has_id j it)) items) i ≡ is_carried items i
is_carried-keep [] j i h = refl
is_carried-keep (x ∷ items) j i h = ground (
  arith,
  h,
  is_carried-keep items j i h,
  eq_iff x.instance_id j,
  eq_iff x.instance_id i,
  eq_iff i j,
)

pub fits-freed :
    (items : List CarriedItem) (j : String) (slot : Option String)
    → fits items slot ≡ true
    → fits (keep (λ it. not (has_id j it)) items) (freed j slot) ≡ true
unfolding holds
fits-freed items j none h = refl
fits-freed items j (some i) h = elim (Bool-cases (str_eq i j)) [
  | inl e ↦ ground (arith, e)
  | inr e ↦ ground (arith, e, h, is_carried-keep items j i e)
]

pub AllCarried-keep :
    (items : List CarriedItem) (j : String) (ids : List String)
    → exists_in (str_eq j) ids ≡ false
    → AllCarried items ids
    → AllCarried (keep (λ it. not (has_id j it)) items) ids
AllCarried-keep items j [] gone h = tt
AllCarried-keep items j (i ∷ ids) gone h = (
  is_carried-keep items j i (ground (arith, gone, eq_iff i j, eq_iff j i)) ∙ h.0,
  AllCarried-keep items j ids (ground (arith, gone)) h.1,
)

-- One removal is enough where each text stands once.
pub AllCarried-remove_text :
    (items : List CarriedItem) (j : String) (ids : List String)
    → distinct ids ≡ true
    → AllCarried items ids
    → AllCarried (keep (λ it. not (has_id j it)) items) (remove_text j ids)
unfolding remove_text
AllCarried-remove_text items j [] once h = tt
AllCarried-remove_text items j (i ∷ ids) once h = elim (Bool-cases (str_eq i j)) [
  | inl e ↦ rw e (AllCarried-keep items j ids (ground (arith, once, eq_iff i j, e)) h.1)
  | inr e ↦ rw e (
    is_carried-keep items j i e ∙ h.0,
    AllCarried-remove_text items j ids (ground (arith, once)) h.1,
  )
]
