-- ===== src/Game/Clock/Watches.antt =====
-- The watch boundaries that a step of clock.py crosses.
use ai_dm.Prelude.{
  ◌⊎◌, ℕ, zero, suc, ◌+◌, ◌≡◌, ◌↔◌, true, refl, sym, ap, List, ◌∷◌, ◌++◌, arith, exists_in, length,
  Option, String,
}
use native.Mathlib.Nat.{zero-add, suc-add}
use ai_dm.Prelude.Int.{
  +ℤ_parts, ℤ, pos, negsuc, pos_part, neg_part, ◌≤ℤ◌, ◌<ℤ◌, ◌+ℤ◌, ◌-ℤ◌, ◌*ℤ◌, div_ℤ, eq_ℤ, sum_laws,
}
use ai_dm.Game.Clock.{
  Clock, Reason, range_from, range, watches, watch_of, absolute_minute, advance, minutes_per_watch,
  long_rest,
}

-- `w` stands in the list.
abbrev pub Listed : ℤ → List ℤ → Type 0
Listed w ws = exists_in (eq_ℤ w) ws ≡ true

Listed-range_from :
    (w start : ℤ) (count : ℕ)
    → Listed w (range_from start count) ↔ ((start ≤ℤ w) × (w <ℤ start +ℤ pos count))
unfolding range_from
Listed-range_from w start zero = (λ h. cc, λ h. absurd (omega sum_laws))
Listed-range_from w start (suc count) =
    let ih = Listed-range_from w (start +ℤ pos 1) count in
    (
      λ h. ground (
        arith,
        ih,
        +ℤ_parts start (pos 1),
        +ℤ_parts (start +ℤ pos 1) (pos count),
        +ℤ_parts start (pos (suc count)),
      ),
      λ h. ground (
        arith,
        ih,
        +ℤ_parts start (pos 1),
        +ℤ_parts (start +ℤ pos 1) (pos count),
        +ℤ_parts start (pos (suc count)),
      ),
    )

div_watch : (a : ℤ) → (div_ℤ a 240 *ℤ 240 ≤ℤ a) × (a <ℤ (div_ℤ a 240 +ℤ pos 1) *ℤ 240)
unfolding div_ℤ
div_watch (pos n) = omega sum_laws
div_watch (negsuc n) = omega sum_laws

div_watch_mono : (a b : ℤ) → a ≤ℤ b → div_ℤ a 240 ≤ℤ div_ℤ b 240
div_watch_mono a b h = omega (sum_laws, div_watch a, div_watch b)

plus_zero : (a : ℤ) → a +ℤ pos 0 ≡ a
plus_zero a = omega sum_laws

plus_suc : (a : ℤ) (m : ℕ) → a +ℤ pos (suc m) ≡ a +ℤ pos 1 +ℤ pos m
plus_suc a m = omega sum_laws

range_from-append :
    (start : ℤ) (m n : ℕ)
    → range_from start (m + n) ≡ range_from start m ++ range_from (start +ℤ pos m) n
unfolding range_from
range_from-append start zero n = rw (zero-add, plus_zero start)
range_from-append start (suc m) n =
    rw (suc-add, plus_suc start m) (ap (λ ws. start ∷ ws) (range_from-append (start +ℤ pos 1) m n))

range-append : (a b c : ℤ) → a ≤ℤ b → b ≤ℤ c → range a c ≡ range a b ++ range b c
unfolding range
range-append a b c h k =
    let count : pos_part (c -ℤ a) ≡ pos_part (b -ℤ a) + pos_part (c -ℤ b) =
      unfold ◌-ℤ◌ in ground arith in
    let middle : a +ℤ pos (pos_part (b -ℤ a)) ≡ b = unfold ◌-ℤ◌ ◌+ℤ◌ in ground arith in
    rw count (rw (range_from-append a (pos_part (b -ℤ a)) (pos_part (c -ℤ b)), middle))

Listed-range : (w a b : ℤ) → Listed w (range a b) ↔ ((a ≤ℤ w) × (w <ℤ b))
unfolding range
Listed-range w a b =
    let inside = Listed-range_from w a (pos_part (b -ℤ a)) in
    (
      λ h. let (low, high) = inside.0 h in (low, omega (sum_laws, low, high, gap)),
      λ h. inside.1 (h.0, omega (sum_laws, h.0, h.1, gap)),
    )
  where
    gap :
        (b ≤ℤ a) × (pos_part (b -ℤ a) ≡ 0)
        ⊎ (a ≤ℤ b) × (pos_part (b -ℤ a) + pos_part a + neg_part b ≡ pos_part b + neg_part a)
    gap = unfold ◌-ℤ◌ in ground arith

-- The watches that are reported are those whose boundary lies after the one clock and not after the
-- other.
pub watches_crossed :
    (before after : Clock) (w : ℤ)
    → Listed w (watches before after) ↔ (
        (absolute_minute before <ℤ w *ℤ minutes_per_watch)
        × (w *ℤ minutes_per_watch ≤ℤ absolute_minute after))
unfolding watches watch_of
watches_crossed before after w =
    let inside =
      Listed-range w (div_ℤ (absolute_minute before) 240 +ℤ pos 1)
        (div_ℤ (absolute_minute after) 240 +ℤ pos 1) in
    let b = div_watch (absolute_minute before) in
    let a = div_watch (absolute_minute after) in
    (
      λ h.
          let (low, high) = inside.0 h in
          (omega (sum_laws, low, high, a, b), omega (sum_laws, low, high, a, b)),
      λ h. inside.1 (omega (sum_laws, h.0, h.1, a, b), omega (sum_laws, h.0, h.1, a, b)),
    )

watches-append :
    (x y z : Clock)
    → absolute_minute x ≤ℤ absolute_minute y
    → absolute_minute y ≤ℤ absolute_minute z
    → watches x z ≡ watches x y ++ watches y z
unfolding watches watch_of
watches-append x y z h k =
    let low = div_watch_mono (absolute_minute x) (absolute_minute y) h in
    let high = div_watch_mono (absolute_minute y) (absolute_minute z) k in
    range-append (div_ℤ (absolute_minute x) 240 +ℤ pos 1) (div_ℤ (absolute_minute y) 240 +ℤ pos 1)
      (div_ℤ (absolute_minute z) 240 +ℤ pos 1) (omega (sum_laws, low)) (omega (sum_laws, high))

abbrev pub moved : Clock → ℤ → Clock
moved c minutes = record c { total_minutes = c.total_minutes +ℤ minutes }

pub clock-advance :
    (c : Clock) (minutes : ℤ) (r : Option Reason) (s : Option String)
    → pos 0 <ℤ minutes
    → (advance c minutes r s).clock ≡ moved c minutes
unfolding advance
clock-advance c minutes r s h = ground arith

moved_twice : (c : Clock) (a b : ℤ) → moved c (a +ℤ b) ≡ moved (moved c a) b
moved_twice c a b = ap (λ t. record c { total_minutes = t }) (omega sum_laws)

-- The clock after two steps in a row is the clock after one step of their sum.
pub advance_twice :
    (c : Clock) (a b : ℤ) (r s : Option Reason) (here there : Option String)
    → pos 0 <ℤ a
    → pos 0 <ℤ b
    → (advance (advance c a r here).clock b s there).clock ≡ (advance c (a +ℤ b) r here).clock
advance_twice c a b r s here there p q =
    let both : pos 0 <ℤ a +ℤ b = omega sum_laws in
    rw
      (
        clock-advance c a r here p,
        clock-advance (moved c a) b s there q,
        clock-advance c (a +ℤ b) r here both,
      )
      (sym (moved_twice c a b))

-- Two steps in a row report the watches that one step over both reports, in the same order.
pub watches_twice :
    (c : Clock) (a b : ℤ) (r s : Option Reason) (here there : Option String)
    → pos 0 <ℤ a
    → pos 0 <ℤ b
    → let mid = (advance c a r here).clock in
      let last = (advance mid b s there).clock in watches c last ≡ watches c mid ++ watches mid last
watches_twice c a b r s here there p q =
    rw (clock-advance c a r here p, clock-advance (moved c a) b s there q)
      (watches-append c (moved c a) (moved (moved c a) b) (unfold absolute_minute in omega sum_laws)
        (unfold absolute_minute in omega sum_laws))

length-range_from : (start : ℤ) (count : ℕ) → length (range_from start count) ≡ count
unfolding range_from
length-range_from start zero = refl
length-range_from start (suc count) = ap suc (length-range_from (start +ℤ pos 1) count)

count_two :
    (x y : ℤ)
    → pos_part y + neg_part x ≡ pos_part x + neg_part y + 2
    → pos_part (y +ℤ pos 1 -ℤ (x +ℤ pos 1)) ≡ 2
unfolding ◌-ℤ◌ ◌+ℤ◌
count_two x y h = ground arith

-- A long rest reports two watches, whenever it begins.
pub long_rest-watches :
    (c : Clock) (scene : Option String) → length (watches c (long_rest c scene).clock) ≡ 2
unfolding long_rest watches range watch_of absolute_minute
long_rest-watches c scene = rw length-range_from (
    count_two (div_ℤ (absolute_minute c) 240)
      (div_ℤ (c.start_minute_of_day +ℤ (c.total_minutes +ℤ pos 480)) 240)
      (omega (
        sum_laws,
        div_watch (c.start_minute_of_day +ℤ c.total_minutes),
        div_watch (c.start_minute_of_day +ℤ (c.total_minutes +ℤ pos 480)),
      )))
