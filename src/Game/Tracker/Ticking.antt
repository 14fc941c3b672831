-- ===== src/Game/Tracker/Ticking.antt =====
-- What a tick of condition_tracker.py leaves, and when it raises.
use mathlib.Core.Path.{subst}
use mathlib.Core.Option
use ai_dm.Prelude.{
  sym, refl, Bool, true, false, ◌&&◌, ◌≡◌, ◌≢◌, ◌⊎◌, inl, inr, arith, Option, none, some, List, [],
  ◌∷◌, keep, exists_in, All, Bool-cases, keep-true, keep-false,
}
use ai_dm.Prelude.Int.{ℤ, ◌<ℤ◌}
use ai_dm.Game.Condition.{
  ConditionInstance, ExpiryTrigger, SaveTiming, SaveToEnd, eq_trigger, eq_timing,
}
use ai_dm.Game.Tracker.{
  Bearer, Rolls, SaveRoll, no_dice, no_d20, rolled, remove, remove_each, is_due, by_trigger,
  by_round, saved, saved_at, ends_by_save, end_by_saves, end_by_time, tick,
}
use ai_dm.Game.Tracker.Removal.{remove_each-All, remove_each-keep}

-- The trigger is not the one that ends the condition.
abbrev pub StaysOn : Option ExpiryTrigger → ExpiryTrigger → Type 0
StaysOn none e = Unit
StaysOn (some t) e = e ≢ t

-- The round comes before the one that ends the condition.
abbrev pub Outlasts : ℤ → Option ℤ → Type 0
Outlasts current_round none = Unit
Outlasts current_round (some r) = current_round <ℤ r

-- The roll does not reach the DC, or there is none.
abbrev pub Misses : SaveRoll → ℤ → Type 0
Misses no_dice dc = Unit
Misses no_d20 dc = ⊥
Misses (rolled none) dc = Unit
Misses (rolled (some total)) dc = total <ℤ dc

abbrev pub Resists : SaveTiming → SaveRoll → Option SaveToEnd → Type 0
Resists w r none = Unit
Resists w r (some save) = (save.when ≢ w) ⊎ Misses r save.dc

-- The condition has a save at this time, and the roller has no d20.
abbrev pub lacks_d20 : SaveRoll → Bool
lacks_d20 no_d20 = true
lacks_d20 _ = false

abbrev pub needs_d20 : SaveTiming → SaveRoll → Option SaveToEnd → Bool
needs_d20 w r none = false
needs_d20 w r (some save) = eq_timing save.when w && lacks_d20 r

eq_timing_ne : (a b : SaveTiming) → eq_timing a b ≡ false → a ≢ b
eq_timing_ne SaveTiming.start_of_turn SaveTiming.start_of_turn h e = cc
eq_timing_ne SaveTiming.end_of_turn SaveTiming.end_of_turn h e = cc
eq_timing_ne SaveTiming.start_of_turn SaveTiming.end_of_turn h e = cc
eq_timing_ne SaveTiming.end_of_turn SaveTiming.start_of_turn h e = cc

eq_trigger_refl : (a : ExpiryTrigger) → eq_trigger a a ≡ true
eq_trigger_refl ExpiryTrigger.start_of_target_turn = refl
eq_trigger_refl ExpiryTrigger.end_of_target_turn = refl
eq_trigger_refl ExpiryTrigger.start_of_source_turn = refl
eq_trigger_refl ExpiryTrigger.end_of_source_turn = refl
eq_trigger_refl ExpiryTrigger.end_of_encounter = refl
eq_trigger_refl ExpiryTrigger.never = refl

eq_trigger_ne : (a b : ExpiryTrigger) → eq_trigger a b ≡ false → a ≢ b
eq_trigger_ne a b h e =
    let same : eq_trigger a b ≡ true = subst (λ t. eq_trigger a t ≡ true) e (eq_trigger_refl a) in
    cc

StaysOn_lem :
    (trigger : Option ExpiryTrigger) (i : ConditionInstance)
    → by_trigger trigger i ≡ false
    → StaysOn trigger i.expires_on
unfolding by_trigger
StaysOn_lem none i h = tt
StaysOn_lem (some t) i h = eq_trigger_ne i.expires_on t h

Outlasts_lem :
    (current_round : ℤ) (i : ConditionInstance) (at : Option ℤ)
    → i.expires_at_round ≡ at
    → by_round current_round i ≡ false
    → Outlasts current_round at
unfolding by_round
Outlasts_lem current_round i none e h = tt
Outlasts_lem current_round i (some r) e h = let late = rw e at h in ground (arith, late)

module _ (w : SaveTiming) (roll : Rolls) where
  passes : ConditionInstance → Bool
  passes i = elim (ends_by_save w roll i) [ none ↦ false | some b ↦ b ]

  needs : ConditionInstance → Bool
  needs i = needs_d20 w (roll i) i.save_to_end

  saved_cases :
      (r : SaveRoll) (save : SaveToEnd)
      → ((saved r save ≡ none) × (lacks_d20 r ≡ true))
        ⊎ (((saved r save ≡ some true) × (lacks_d20 r ≡ false))
            ⊎ ((saved r save ≡ some false) × (lacks_d20 r ≡ false) × Misses r save.dc))
  unfolding saved
  saved_cases no_dice save = inr (inr (refl, refl, tt))
  saved_cases no_d20 save = inl (refl, refl)
  saved_cases (rolled none) save = inr (inr (refl, refl, tt))
  saved_cases (rolled (some total)) save = ground arith

  -- What is found out about a save, beside what it and its roll say.
  saved_at_cases :
      (r : SaveRoll) (stx : Option SaveToEnd)
      → ((saved_at w r stx ≡ none) × (needs_d20 w r stx ≡ true))
        ⊎ (((saved_at w r stx ≡ some true) × (needs_d20 w r stx ≡ false))
            ⊎ ((saved_at w r stx ≡ some false) × (needs_d20 w r stx ≡ false) × Resists w r stx))
  unfolding saved_at
  saved_at_cases r none = inr (inr (refl, refl, tt))
  saved_at_cases r (some save) = elim (Bool-cases (eq_timing save.when w)) [
    | inr other ↦ rw other (inr (inr (refl, refl, inl (eq_timing_ne save.when w other))))
    | inl now ↦ rw now (elim (saved_cases r save) [
      | inl h ↦ inl h
      | inr (inl h) ↦ inr (inl h)
      | inr (inr (stays, has, low)) ↦ inr (inr (stays, has, inr low))
    ])
  ]

  -- The loop either meets an instance that needs a d20 that is not there, or removes those that pass.
  abbrev Looped :
      List ConditionInstance → Bearer → Bearer × Option (List ConditionInstance) → Type 0
  Looped is c (c', none) = exists_in needs is ≡ true
  Looped is c (c', some ended) =
      (exists_in needs is ≡ false) × (c' ≡ remove_each (keep passes is) c)

  Looped-true :
      (i : ConditionInstance) (is : List ConditionInstance) (c : Bearer)
      (out : Bearer × Option (List ConditionInstance))
      → needs i ≡ false
      → passes i ≡ true
      → Looped is (remove c i.key (some i.source)).0 out
      → Looped (i ∷ is) c (out.0, Option.map (λ is. i ∷ is) out.1)
  unfolding remove_each
  Looped-true i is c (c', none) n p h = ground (arith, h)
  Looped-true i is c (c', some ended) n p h =
      (ground (arith, h.0), rw (keep-true passes i is p) h.1)

  Looped-false :
      (i : ConditionInstance) (is : List ConditionInstance) (c : Bearer)
      (out : Bearer × Option (List ConditionInstance))
      → needs i ≡ false
      → passes i ≡ false
      → Looped is c out
      → Looped (i ∷ is) c out
  Looped-false i is c (c', none) n p h = ground (arith, h)
  Looped-false i is c (c', some ended) n p h =
      (ground (arith, h.0), rw (keep-false passes i is p) h.1)

  end_by_saves-Looped :
      (is : List ConditionInstance) (c : Bearer) → Looped is c (end_by_saves w roll is c)
  unfolding end_by_saves remove_each needs passes ends_by_save
  end_by_saves-Looped [] c = (refl, refl)
  end_by_saves-Looped (i ∷ is) c =
      go (saved_at w (roll i) i.save_to_end) refl (end_by_saves-Looped is c)
        (end_by_saves-Looped is (remove c i.key (some i.source)).0)
    where
      later : Bearer × Option (List ConditionInstance)
      later = end_by_saves w roll is (remove c i.key (some i.source)).0

      lacking : saved_at w (roll i) i.save_to_end ≡ none → needs i ≡ true
      lacking e = elim (saved_at_cases (roll i) i.save_to_end) [
        | inl h ↦ h.1
        | inr (inl h) ↦ cc
        | inr (inr h) ↦ cc
      ]

      having : (b : Bool) → saved_at w (roll i) i.save_to_end ≡ some b → needs i ≡ false
      having b e = elim (saved_at_cases (roll i) i.save_to_end) [
        | inl h ↦ cc
        | inr (inl h) ↦ h.1
        | inr (inr h) ↦ h.1
      ]

      go :
          (o : Option Bool)
          → saved_at w (roll i) i.save_to_end ≡ o
          → Looped is c (end_by_saves w roll is c)
          → Looped is (remove c i.key (some i.source)).0 later
          → let out : Bearer × Option (List ConditionInstance) = elim o [
            | none ↦ (c, none)
            | some false ↦ end_by_saves w roll is c
            | some true ↦ (later.0, Option.map (λ is. i ∷ is) later.1)
          ] in
            Looped (i ∷ is) c out
      go none e same after = rw (lacking e) refl
      go (some true) e same after =
          Looped-true i is c later (having true e) (rw (e, passes, ends_by_save) refl) after
      go (some false) e same after =
          Looped-false i is c (end_by_saves w roll is c) (having false e)
            (rw (e, passes, ends_by_save) refl) same

  needs-All :
      (is : List ConditionInstance) → exists_in needs is ≡ false → All (λ i. needs i ≡ false) is
  needs-All [] h = tt
  needs-All (i ∷ is) h = (ground (arith, h), needs-All is (ground (arith, h)))

  Resists_lem :
      (i : ConditionInstance)
      → needs i ≡ false
      → passes i ≡ false
      → Resists w (roll i) i.save_to_end
  unfolding needs passes ends_by_save
  Resists_lem i n p = elim (saved_at_cases (roll i) i.save_to_end) [
    | inl h ↦ cc
    | inr (inl h) ↦ let bad : true ≡ false = rw (h.0, passes) at p in cc
    | inr (inr h) ↦ h.2
  ]

-- A condition that neither the trigger nor the round ends, and whose save at this time does not succeed.
pub record Survives (current_round : ℤ) (trigger : Option ExpiryTrigger) (w : SaveTiming)
    (roll : Rolls) (i : ConditionInstance) : Type 0 where
  pub stays_on : StaysOn trigger i.expires_on
  pub outlasts : Outlasts current_round i.expires_at_round
  pub resists : Resists w (roll i) i.save_to_end

-- What a tick comes to: it raises, for want of a d20 that a save of the first conditions needs, or
-- each condition that is left survives.
abbrev pub Ticks :
    ℤ
    → Option ExpiryTrigger
    → SaveTiming
    → Rolls
    → Bearer
    → Bearer × Option (List ConditionInstance)
    → Type 0
Ticks current_round trigger w roll c (c', none) =
    exists_in (λ i. needs_d20 w (roll i) i.save_to_end) c.conditions ≡ true
Ticks current_round trigger w roll c (c', some ended) =
    (exists_in (λ i. needs_d20 w (roll i) i.save_to_end) c.conditions ≡ false)
    × All (Survives current_round trigger w roll) c'.conditions

module _ (current_round : ℤ) (trigger : Option ExpiryTrigger) (w : SaveTiming) (roll : Rolls) where
  Survives_lem :
      (i : ConditionInstance)
      → needs w roll i ≡ false
      → passes w roll i ≡ false
      → is_due trigger current_round i ≡ false
      → Survives current_round trigger w roll i
  unfolding is_due
  Survives_lem i n p due = record {
    stays_on = StaysOn_lem trigger i (ground (arith, due));
    outlasts = Outlasts_lem current_round i i.expires_at_round refl (ground (arith, due));
    resists = Resists_lem w roll i n p;
  }

  Survives-All :
      (is : List ConditionInstance)
      → All (λ i. needs w roll i ≡ false) is
      → All (λ i. passes w roll i ≡ false) is
      → All (λ i. is_due trigger current_round i ≡ false) is
      → All (Survives current_round trigger w roll) is
  Survives-All [] n p due = tt
  Survives-All (i ∷ is) n p due = (Survives_lem i n.0 p.0 due.0, Survives-All is n.1 p.1 due.1)

  end_by_time-Ticks :
      (c : Bearer) (out : Bearer × Option (List ConditionInstance))
      → Looped w roll c.conditions c out
      → Ticks current_round trigger w roll c (end_by_time trigger current_round out)
  unfolding end_by_time needs
  end_by_time-Ticks c (c', none) h = h
  end_by_time-Ticks c (c', some by_save) h =
      let due = keep (is_due trigger current_round) c'.conditions in
      let unneeding : All (λ i. needs w roll i ≡ false) c'.conditions =
        subst (λ (b : Bearer). All (λ i. needs w roll i ≡ false) b.conditions) (sym h.1)
          (remove_each-All _ (keep (passes w roll) c.conditions) c
            (needs-All w roll c.conditions h.0)) in
      let unpassing : All (λ i. passes w roll i ≡ false) c'.conditions =
        subst (λ (b : Bearer). All (λ i. passes w roll i ≡ false) b.conditions) (sym h.1)
          (remove_each-keep (passes w roll) c) in
      (
        h.0,
        Survives-All (remove_each due c').conditions (remove_each-All _ due c' unneeding)
            (remove_each-All _ due c' unpassing)
            (remove_each-keep (is_due trigger current_round) c'),
      )

-- A tick with a save timing raises exactly when a condition has a save at this timing and the roller has no
-- d20 for it. Otherwise each condition that is left is not ended by the trigger, ends in a later round if
-- in any, and has no save at this timing whose total reaches the DC.
pub tick_complete :
    (c : Bearer) (current_round : ℤ) (trigger : Option ExpiryTrigger) (w : SaveTiming)
    (roll : Rolls)
    → Ticks current_round trigger w roll c (tick c current_round trigger (some w) roll)
unfolding tick
tick_complete c current_round trigger w roll =
    end_by_time-Ticks current_round trigger w roll c (end_by_saves w roll c.conditions c)
      (end_by_saves-Looped w roll c.conditions c)
