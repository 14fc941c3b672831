-- ===== src/Game/Inventory/Invariant.antt =====
-- Inventory of src/ai_dm/game/combatant_state.py: the inventory is tidy after any series of calls.
use ai_dm.Prelude.{
  ℕ, Bool, true, false, ◌||◌, ◌≡◌, refl, ◌∙◌, ap, Option, none, some, List, [], ◌∷◌, ◌++◌, String,
  arith, str_eq, eq_iff, if◌then◌else◌, if-cases, Option-elim, exists_in, length, length-append,
  leb,
}
use ai_dm.Prelude.Int.{ℤ, pos, ltb_ℤ}
use ai_dm.Game.Inventory.{
  CarriedItem, Inventory, has_id, by_id, drop, drop_found, equip, equip_slot, attune,
  end_attunement, max_attuned, new_item,
}
use ai_dm.Game.Inventory.Charges.{
  use_up, expend_from, expend_charges, restore_from, restore_charges, consume_one,
}
use ai_dm.Game.Inventory.Giving.{
  Template, stacks_with, add_to_stack, add_new, put_stack, give, give_magic_item, give_template,
  inventory_key,
}
use ai_dm.Game.Inventory.Calls.{
  Call, giving, giving_magic, dropping, equipping, unequipping, attuning, ending_attunement,
  expending, restoring, consuming, after, after_equip, apply, run,
}
use ai_dm.Game.Inventory.Carrying.{is_carried, distinct, AllCarried, is_carried-more}
use ai_dm.Game.Inventory.Tidy.{IsTidy, IsTidy-more, AttunedFit-remove_text}
use ai_dm.Game.Inventory.Keeping.{
  drop_found-IsTidy, use_up-IsTidy, expend_from-IsTidy, restore_from-IsTidy, found_carried,
  equip_slot-SlotsFit, unequip-SlotsFit,
}

distinct-append :
    (ids : List String) (j : String)
    → distinct ids ≡ true
    → exists_in (str_eq j) ids ≡ false
    → distinct (ids ++ j ∷ []) ≡ true
distinct-append [] j h fresh = refl
distinct-append (i ∷ ids) j h fresh = ground (
  arith,
  h,
  fresh,
  distinct-append ids j (ground (arith, h)) (ground (arith, fresh)),
  not_among ids j i (ground (arith, h)) (ground (arith, fresh, eq_iff i j, eq_iff j i)),
)
  where
    not_among :
        (ids : List String) (j i : String)
        → exists_in (str_eq i) ids ≡ false
        → str_eq i j ≡ false
        → exists_in (str_eq i) (ids ++ j ∷ []) ≡ false
    not_among [] j i g n = ground (arith, n)
    not_among (k ∷ ids) j i g n = ground (arith, g, n, not_among ids j i (ground (arith, g)) n)

AllCarried-append :
    (items : List CarriedItem) (ids : List String) (j : String)
    → AllCarried items ids
    → is_carried items j ≡ true
    → AllCarried items (ids ++ j ∷ [])
AllCarried-append items [] j h c = (c, tt)
AllCarried-append items (i ∷ ids) j h c = (h.0, AllCarried-append items ids j h.1 c)

attune_found-IsTidy :
    (inv : Inventory) (j : String)
    → IsTidy inv
    → is_carried inv.items j ≡ true
    → let out : Inventory × Bool =
        if exists_in (str_eq j) inv.attuned
        then (inv, true)
        else if leb max_attuned (length inv.attuned)
        then (inv, false)
        else (record inv { attuned = inv.attuned ++ j ∷ [] }, true) in
      IsTidy out.0
attune_found-IsTidy inv j (s, a) c =
    if-cases (λ (out : Inventory × Bool). IsTidy out.0) (exists_in (str_eq j) inv.attuned)
      (λ e. (s, a))
      (λ e.
        if-cases (λ (out : Inventory × Bool). IsTidy out.0) (leb max_attuned (length inv.attuned))
          (λ f. (s, a))
          (λ f. (
            s,
            (
              AllCarried-append inv.items inv.attuned j a.0 c,
              distinct-append inv.attuned j a.1 e,
              ground (arith, f, length-append inv.attuned (j ∷ [])),
            ),
          )))

-- The same instances are carried, where there is a result.
abbrev SameCarried : List CarriedItem → Option (List CarriedItem × CarriedItem) → Type 0
SameCarried items none = Unit
SameCarried items (some (its, it)) = (i : String) → is_carried its i ≡ is_carried items i

add_to_stack-SameCarried :
    (p : CarriedItem → Bool) (qty : ℤ) (items : List CarriedItem)
    → SameCarried items (add_to_stack p qty items)
unfolding add_to_stack
add_to_stack-SameCarried p qty [] = tt
add_to_stack-SameCarried p qty (x ∷ items) =
    if-cases (SameCarried (x ∷ items)) (p x) (λ e i. refl)
      (λ e. go (add_to_stack p qty items) (add_to_stack-SameCarried p qty items))
  where
    go :
        (o : Option (List CarriedItem × CarriedItem))
        → SameCarried items o
        → SameCarried
            (x ∷ items)
            (elim o [ none ↦ none | some found ↦ some (x ∷ found.0, found.1) ])
    go none h = tt
    go (some found) h = λ i. ap (λ b. has_id i x || b) (h i)

put_stack-IsTidy :
    (inv : Inventory) (o : Option String) (make : String → CarriedItem)
    → IsTidy inv
    → IsTidy (after inv (put_stack inv o make))
put_stack-IsTidy inv none make h = h
put_stack-IsTidy inv (some i) make h =
    IsTidy-more inv.items (inv.items ++ make i ∷ []) (λ j c. is_carried-more inv.items (make i) j c)
      inv refl h

module _ (digits : ℕ → String) where
  add_new-IsTidy :
      (inv : Inventory) (item_key : String) (instance_id : Option String)
      (make : String → CarriedItem)
      → IsTidy inv
      → IsTidy (after inv (add_new digits inv item_key instance_id make))
  unfolding add_new
  add_new-IsTidy inv item_key instance_id make h = put_stack-IsTidy inv _ make h

  give-IsTidy :
      (magical : Bool) (inv : Inventory) (item_key : String) (qty : ℤ)
      (instance_id container : Option String)
      → IsTidy inv
      → IsTidy (after inv (give digits magical inv item_key qty instance_id container))
  unfolding give
  give-IsTidy true inv item_key qty instance_id container h =
      add_new-IsTidy inv item_key instance_id _ h
  give-IsTidy false inv item_key qty instance_id container h =
      go (add_to_stack (stacks_with inv item_key container) qty inv.items)
        (add_to_stack-SameCarried (stacks_with inv item_key container) qty inv.items)
    where
      go :
          (o : Option (List CarriedItem × CarriedItem))
          → SameCarried inv.items o
          → let fresh =
              add_new digits inv item_key instance_id (λ i. new_item i item_key qty container) in
            let out : Option (Inventory × CarriedItem) = elim o [
              | none ↦ fresh
              | some found ↦ some (record inv { items = found.0 }, found.1)
            ] in
            IsTidy (after inv out)
      go none same = add_new-IsTidy inv item_key instance_id _ h
      go (some found) same = IsTidy-more inv.items found.0 (λ i c. same i ∙ c) inv refl h

  give_template-IsTidy :
      (get_magic_item : String → Option Template) (inv : Inventory) (tpl : Template)
      (magic_item_key : String) (qty : ℤ) (instance_id container : Option String)
      (identified : Bool) (key : Option String)
      → IsTidy inv
      → IsTidy (
          after inv (
            give_template digits get_magic_item inv tpl magic_item_key qty instance_id container
              identified key))
  unfolding give_template
  give_template-IsTidy g inv tpl magic_item_key qty instance_id container identified none h = h
  give_template-IsTidy g inv tpl magic_item_key qty instance_id container identified (some key) h =
      add_new-IsTidy inv key instance_id _ h

module _ (digits : ℕ → String) (get_magic_item : String → Option Template) where
  apply-IsTidy :
      (c : Call) (inv : Inventory) → IsTidy inv → IsTidy (apply digits get_magic_item c inv)
  unfolding apply drop equip attune end_attunement expend_charges restore_charges consume_one
      give_magic_item
  apply-IsTidy (giving magical item_key qty instance_id container) inv h =
      give-IsTidy digits magical inv item_key qty instance_id container h
  apply-IsTidy (giving_magic key qty base_item_key instance_id container identified) inv h =
      Option-elim (λ (out : Option (Inventory × CarriedItem)). IsTidy (after inv out))
        (get_magic_item key) none
        (λ tpl.
          give_template digits get_magic_item inv tpl key qty instance_id container identified
            (inventory_key tpl key base_item_key))
        (λ e. h)
        (λ tpl e.
          give_template-IsTidy digits get_magic_item inv tpl key qty instance_id container
            identified (inventory_key tpl key base_item_key) h)
  apply-IsTidy (dropping j qty) inv h =
      Option-elim (λ (out : Inventory × Option CarriedItem). IsTidy out.0) (by_id inv j) (inv, none)
        (drop_found inv j qty) (λ e. h) (λ it at. drop_found-IsTidy inv j qty it h)
  apply-IsTidy (equipping j slot two_handed) inv h =
      Option-elim (λ (out : Option Inventory). IsTidy (after_equip inv out)) (by_id inv j) none
        (λ it. some (record inv { equipped = equip_slot inv.equipped j slot two_handed })) (λ e. h)
        (λ it at. (
          equip_slot-SlotsFit inv.items inv.equipped j slot two_handed
              (found_carried inv.items j it at) h.0,
          h.1,
        ))
  apply-IsTidy (unequipping slot) inv h = (unequip-SlotsFit inv.items inv.equipped slot h.0, h.1)
  apply-IsTidy (attuning j) inv h =
      Option-elim (λ (out : Option (Inventory × Bool)). IsTidy (after inv out)) (by_id inv j) none
        (λ it. some (
          if exists_in (str_eq j) inv.attuned
          then (inv, true)
          else if leb max_attuned (length inv.attuned)
          then (inv, false)
          else (record inv { attuned = inv.attuned ++ j ∷ [] }, true)))
        (λ e. h) (λ it at. attune_found-IsTidy inv j h (found_carried inv.items j it at))
  apply-IsTidy (ending_attunement j) inv h =
      (h.0, AttunedFit-remove_text inv.items j inv.attuned h.1)
  apply-IsTidy (expending j n) inv h =
      Option-elim (λ (out : Option (Inventory × ℤ)). IsTidy (after inv out)) (by_id inv j) none
        (λ it. expend_from inv it n it.max_charges) (λ e. h)
        (λ it at. expend_from-IsTidy inv it n it.max_charges h)
  apply-IsTidy (restoring j n) inv h =
      Option-elim (λ (out : Inventory × ℤ). IsTidy out.0) (by_id inv j) (inv, pos 0)
        (λ it. restore_from inv it n it.max_charges) (λ e. h)
        (λ it at. restore_from-IsTidy inv it n it.max_charges h)
  apply-IsTidy (consuming j) inv h =
      Option-elim (λ (out : Inventory × Bool). IsTidy out.0) (by_id inv j) (inv, false)
        (λ it.
          if it.consumable
          then ((use_up inv it (pos 1)).0, ltb_ℤ (pos 0) (use_up inv it (pos 1)).1)
          else (inv, false))
        (λ e. h)
        (λ it at.
          if-cases (λ (out : Inventory × Bool). IsTidy out.0) it.consumable
            (λ e. use_up-IsTidy inv it (pos 1) h) (λ e. h))

  -- Whatever is given, dropped, equipped, attuned and used: if the slots and the attuned instances were
  -- carried, each attuned once and three at most, they still are.
  pub run-IsTidy :
      (cs : List Call) (inv : Inventory) → IsTidy inv → IsTidy (run digits get_magic_item cs inv)
  unfolding run
  run-IsTidy [] inv h = h
  run-IsTidy (c ∷ cs) inv h =
      run-IsTidy cs (apply digits get_magic_item c inv) (apply-IsTidy c inv h)
