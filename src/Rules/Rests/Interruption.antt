-- ===== src/Rules/Rests/Interruption.antt =====
-- When a rest completes, and what spoils it.
use ai_dm.Prelude.{
  true, false, ◌≡◌, refl, sym, ap, ◌∙◌, arith, List, [], ◌∷◌, All, length, Bool-cases, inl, inr,
}
use ai_dm.Prelude.Int.{ℤ, pos, ◌+ℤ◌, ◌≤ℤ◌, ◌<ℤ◌, leb_ℤ, sum_laws, int_laws, +ℤ_parts}
use ai_dm.Rules.Rests.{short, long}
use ai_dm.Rules.Rests.Progress.{
  RestProgress, advance, required_minutes, Interruption, combat, strenuous, damage, interrupt,
}

unfoldable pub advance_all : RestProgress → List ℤ → RestProgress
advance_all p [] = p
advance_all p (minutes ∷ rest) = advance_all (advance p minutes) rest

unfoldable pub sum_minutes : List ℤ → ℤ
sum_minutes [] = pos 0
sum_minutes (minutes ∷ rest) = minutes +ℤ sum_minutes rest

sum_nonneg : (ms : List ℤ) → All (λ m. pos 0 ≤ℤ m) ms → pos 0 ≤ℤ sum_minutes ms
unfolding sum_minutes
sum_nonneg [] h = omega arith
sum_nonneg (m ∷ ms) h = omega (sum_laws, h.0, sum_nonneg ms h.1)

advance-completed : (p : RestProgress) (m : ℤ) → p.completed ≡ true → advance p m ≡ p
unfolding advance
advance-completed p m h = ground arith

advance-open :
    (p : RestProgress) (m : ℤ)
    → p.interrupted ≡ false
    → p.completed ≡ false
    → advance p m ≡ record p {
      elapsed_minutes = p.elapsed_minutes +ℤ m;
      completed = leb_ℤ (required_minutes p.kind) (p.elapsed_minutes +ℤ m);
    }
unfolding advance
advance-open p m i c = ground arith

advance_done :
    (p : RestProgress) (ms : List ℤ) → p.completed ≡ true → (advance_all p ms).completed ≡ true
unfolding advance_all
advance_done p [] h = h
advance_done p (m ∷ ms) h =
    ap (λ (q : RestProgress). (advance_all q ms).completed) (advance-completed p m h)
    ∙ advance_done p ms h

enough : (a b c : ℤ) → leb_ℤ a b ≡ true → pos 0 ≤ℤ c → leb_ℤ a (b +ℤ c) ≡ true
enough a b c h k = ground (arith, +ℤ_parts b c)

not_enough : (a b : ℤ) → b <ℤ a → leb_ℤ a b ≡ false
not_enough a b h = ground arith

less : (a b : ℤ) → leb_ℤ a b ≡ false → b <ℤ a
less a b h = ground arith

add_zero : (a : ℤ) → a +ℤ pos 0 ≡ a
add_zero a = omega sum_laws

add_assoc_ℤ : (a b c : ℤ) → a +ℤ (b +ℤ c) ≡ (a +ℤ b) +ℤ c
add_assoc_ℤ a b c = omega sum_laws

-- A rest that nothing interrupts is completed exactly when the minutes that were rested, in any
-- portions that are not negative, reach what its kind requires.
pub advance_all-completed :
    (p : RestProgress) (ms : List ℤ)
    → p.interrupted ≡ false
    → p.completed ≡ false
    → p.elapsed_minutes <ℤ required_minutes p.kind
    → All (λ m. pos 0 ≤ℤ m) ms
    → (advance_all p ms).completed
      ≡ leb_ℤ (required_minutes p.kind) (p.elapsed_minutes +ℤ sum_minutes ms)
unfolding advance_all sum_minutes
advance_all-completed p [] i c e h =
    c
    ∙ sym
        (rw (add_zero p.elapsed_minutes) (not_enough (required_minutes p.kind) p.elapsed_minutes e))
advance_all-completed p (m ∷ ms) i c e h =
    let need = required_minutes p.kind in
    let now = p.elapsed_minutes +ℤ m in
    let q : RestProgress = record p { elapsed_minutes = now; completed = leb_ℤ need now } in
    let total = add_assoc_ℤ p.elapsed_minutes m (sum_minutes ms) in
    ap (λ (x : RestProgress). (advance_all x ms).completed) (advance-open p m i c)
    ∙ elim (Bool-cases (leb_ℤ need now))
        as (λ _.
          (advance_all q ms).completed ≡ leb_ℤ need (p.elapsed_minutes +ℤ (m +ℤ sum_minutes ms))) [
            | inl d ↦
                advance_done q ms d
                ∙ sym
                    (ap (leb_ℤ need) total ∙ enough need now (sum_minutes ms) d (sum_nonneg ms h.1))
            | inr d ↦
                advance_all-completed q ms i d (less need now d) h.1 ∙ sym (ap (leb_ℤ need) total)
          ]

unfoldable pub fight_all : RestProgress → List ℤ → RestProgress
fight_all p [] = p
fight_all p (rounds ∷ rest) = fight_all (interrupt p (combat rounds)) rest

same_kind : (p : RestProgress) (i : Interruption) → (interrupt p i).kind ≡ p.kind
unfolding interrupt
same_kind p (combat rounds) = refl
same_kind p (strenuous minutes) = refl
same_kind p damage = refl

-- Strenuous activity of no minutes disturbs nobody.
abbrev pub IsDisturbance : Interruption → Type 0
IsDisturbance (combat rounds) = Unit
IsDisturbance (strenuous minutes) = pos 0 <ℤ minutes
IsDisturbance damage = Unit

unfoldable pub interrupt_all : RestProgress → List Interruption → RestProgress
interrupt_all p [] = p
interrupt_all p (i ∷ is) = interrupt_all (interrupt p i) is

spoils :
    (p : RestProgress) (i : Interruption)
    → p.kind ≡ short
    → IsDisturbance i
    → (interrupt p i).interrupted ≡ true
unfolding interrupt
spoils p (combat rounds) k d = rw k refl
spoils p (strenuous minutes) k d = rw k (ground arith)
spoils p damage k d = refl

stays_spoiled :
    (p : RestProgress) (i : Interruption)
    → p.interrupted ≡ true
    → (interrupt p i).interrupted ≡ true
unfolding interrupt
stays_spoiled p (combat rounds) h = ground arith
stays_spoiled p (strenuous minutes) h = ground arith
stays_spoiled p damage h = refl

still_spoiled :
    (p : RestProgress) (is : List Interruption)
    → p.interrupted ≡ true
    → (interrupt_all p is).interrupted ≡ true
unfolding interrupt_all
still_spoiled p [] h = h
still_spoiled p (i ∷ is) h = still_spoiled (interrupt p i) is (stays_spoiled p i h)

advance-spoiled : (p : RestProgress) (m : ℤ) → p.interrupted ≡ true → advance p m ≡ p
unfolding advance
advance-spoiled p m h = ground arith

fight :
    (p : RestProgress) (rounds : ℤ)
    → p.kind ≡ long
    → ((interrupt p (combat rounds)).interrupted ≡ p.interrupted)
      × (p.strenuous_minutes +ℤ pos 1 ≤ℤ (interrupt p (combat rounds)).strenuous_minutes)
unfolding interrupt
fight p rounds k = rw k (refl, omega (int_laws))

-- Combat never spoils a long rest, although every fight counts at least one minute of strenuous
-- activity: after sixty fights the tally is past the limit that strenuous activity is held to, and the
-- rest still goes on.
pub long_rest-fight_all :
    (p : RestProgress) (fights : List ℤ)
    → p.kind ≡ long
    → ((fight_all p fights).interrupted ≡ p.interrupted)
      × (p.strenuous_minutes +ℤ pos (length fights) ≤ℤ (fight_all p fights).strenuous_minutes)
unfolding fight_all
long_rest-fight_all p [] k = (refl, omega sum_laws)
long_rest-fight_all p (rounds ∷ fights) k =
    let p' = interrupt p (combat rounds) in
    let one = fight p rounds k in
    let ih = long_rest-fight_all p' fights (same_kind p (combat rounds) ∙ k) in
    (ih.0 ∙ one.0, omega (sum_laws, ih.1, one.1))

-- Any fight, any damage and any minute of strenuous activity spoils a short rest, and no later call
-- mends it.
pub short_rest-spoiled :
    (p : RestProgress) (i : Interruption) (later : List Interruption) (minutes : ℤ)
    → p.kind ≡ short
    → IsDisturbance i
    → ((interrupt_all (interrupt p i) later).interrupted ≡ true)
      × (advance (interrupt_all (interrupt p i) later) minutes
          ≡ interrupt_all (interrupt p i) later)
short_rest-spoiled p i later minutes k d =
    let spoiled = still_spoiled (interrupt p i) later (spoils p i k d) in
    (spoiled, advance-spoiled (interrupt_all (interrupt p i) later) minutes spoiled)
