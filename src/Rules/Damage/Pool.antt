-- ===== src/Rules/Damage/Pool.antt =====
-- apply_damage of damage.py against a single pool of hit points, and its report.
use ai_dm.Prelude.{
  ◌∙◌, refl, if◌then◌else◌, Bool-cases, inl, inr, ◌≡◌, true, Option, some, String, arith,
  get_or_default,
}
use ai_dm.Prelude.Int.{min_ℤ, eq_ℤ, ℤ, pos, ◌+ℤ◌, ◌-ℤ◌, ◌≤ℤ◌, ◌<ℤ◌, max_ℤ, int_laws}
use ai_dm.Rules.Damage.{Target, DamageOutcome, apply_damage, apply_healing, grant_temp_hp}

abbrev pub hp_of : Target → ℤ
hp_of t = get_or_default (pos 0) t.hp

abbrev pub temp_of : Target → ℤ
temp_of t = get_or_default (pos 0) t.temp_hp

-- What damage has to get through.
unfoldable pub pool : Target → ℤ
pool t = hp_of t +ℤ temp_of t

pub record IsSound (t : Target) : Type 0 where
  pub hp_nonneg : pos 0 ≤ℤ hp_of t
  pub temp_nonneg : pos 0 ≤ℤ temp_of t

soak :
    (h t r : ℤ)
    → pos 0 ≤ℤ h
    → pos 0 ≤ℤ t
    → pos 0 ≤ℤ r
    → max_ℤ (pos 0) (h -ℤ (r -ℤ min_ℤ t r)) +ℤ (t -ℤ min_ℤ t r) ≡ max_ℤ (pos 0) (h +ℤ t -ℤ r)
soak h t r p q s = omega int_laws

soak_none :
    (h t r : ℤ)
    → pos 0 ≤ℤ h
    → pos 0 ≤ℤ t
    → pos 0 ≤ℤ r
    → eq_ℤ r (pos 0) ≡ true
    → h +ℤ t ≡ max_ℤ (pos 0) (h +ℤ t -ℤ r)
soak_none h t r p q s e = grind int_laws

-- Writing back the temporary hit points only if some were used changes no count.
temp_left :
    (t : Option ℤ) (a : ℤ)
    → get_or_default (pos 0) (if eq_ℤ a (pos 0) then t else some (get_or_default (pos 0) t -ℤ a))
      ≡ get_or_default (pos 0) t -ℤ a
temp_left t a = elim (Bool-cases (eq_ℤ a (pos 0))) [
  | inl e ↦ rw e (grind (int_laws, e))
  | inr e ↦ rw e
]

-- Damage of `amount` lowers hit points and temporary hit points together by `amount`, and stops at 0.
pub apply_damage-pool :
    (t : Target) (amount : ℤ) (kind : String)
    → IsSound t
    → pool (apply_damage t amount kind).0 ≡ max_ℤ (pos 0) (pool t -ℤ max_ℤ (pos 0) amount)
unfolding pool apply_damage
apply_damage-pool t amount kind h = elim (Bool-cases (eq_ℤ (max_ℤ (pos 0) amount) (pos 0))) [
  | inl e ↦ rw e (
      soak_none (hp_of t) (temp_of t) (max_ℤ (pos 0) amount) h.hp_nonneg h.temp_nonneg
        (omega int_laws) e)
  | inr e ↦
      rw (e, temp_left)
        (soak (hp_of t) (temp_of t) (max_ℤ (pos 0) amount) h.hp_nonneg h.temp_nonneg
          (omega int_laws))
]

pub apply_damage-IsSound :
    (t : Target) (amount : ℤ) (kind : String) → IsSound t → IsSound (apply_damage t amount kind).0
unfolding apply_damage
apply_damage-IsSound t amount kind h = elim (Bool-cases (eq_ℤ (max_ℤ (pos 0) amount) (pos 0))) [
  | inl e ↦ rw e h
  | inr e ↦
      rw e (record { hp_nonneg = omega int_laws; temp_nonneg = rw temp_left (omega int_laws) })
]

drain_twice :
    (p a b : ℤ)
    → pos 0 ≤ℤ a
    → pos 0 ≤ℤ b
    → max_ℤ (pos 0) (max_ℤ (pos 0) (p -ℤ max_ℤ (pos 0) a) -ℤ max_ℤ (pos 0) b)
      ≡ max_ℤ (pos 0) (p -ℤ max_ℤ (pos 0) (a +ℤ b))
drain_twice p a b h k = omega int_laws

-- Two hits leave as much as one hit of their sum.
pub apply_damage_twice :
    (t : Target) (a b : ℤ) (kind other : String)
    → IsSound t
    → pos 0 ≤ℤ a
    → pos 0 ≤ℤ b
    → pool (apply_damage (apply_damage t a kind).0 b other).0
      ≡ pool (apply_damage t (a +ℤ b) kind).0
apply_damage_twice t a b kind other h p q =
    apply_damage-pool _ b other (apply_damage-IsSound t a kind h)
    ∙ (rw (apply_damage-pool t a kind h, apply_damage-pool t (a +ℤ b) kind h)
        (drain_twice (pool t) a b p q))

-- The report: what the temporary hit points absorbed and what was dealt add up to the request, the
-- target holds the reported hit points and has lost what was absorbed.
pub record Reports (t : Target) (r : Target × DamageOutcome) : Type 0 where
  pub split : r.1.absorbed_by_temp_hp +ℤ r.1.dealt ≡ r.1.requested
  pub written : hp_of r.0 ≡ r.1.hp_after
  pub read : hp_of t ≡ r.1.hp_before
  pub soaked : temp_of r.0 +ℤ r.1.absorbed_by_temp_hp ≡ temp_of t

-- Whatever the target and the amount are, the outcome of damage adds up and agrees with the target before
-- and after.
pub apply_damage-Reports :
    (t : Target) (amount : ℤ) (kind : String) → Reports t (apply_damage t amount kind)
unfolding apply_damage
apply_damage-Reports t amount kind = elim (Bool-cases (eq_ℤ (max_ℤ (pos 0) amount) (pos 0))) [
  | inl e ↦
      rw e (record { split = omega int_laws; written = refl; read = refl; soaked = omega int_laws })
  | inr e ↦ rw e (record {
    split = omega int_laws;
    written = refl;
    read = refl;
    soaked = rw temp_left (omega int_laws);
  })
]

-- Healing by a positive amount raises hit points that do not exceed a positive maximum by that amount,
-- or to the maximum if that is less.
pub apply_healing_bounds :
    (t : Target) (amount m : ℤ)
    → t.max_hp ≡ some m
    → pos 0 <ℤ m
    → hp_of t ≤ℤ m
    → pos 0 <ℤ amount
    → hp_of (apply_healing t amount).0 ≡ min_ℤ m (hp_of t +ℤ amount)
unfolding apply_healing
apply_healing_bounds t amount m e p q r = ground arith

-- Temporary hit points do not add up: after two grants the greater one is left.
pub grant_temp_hp_twice :
    (t : Target) (a b : ℤ)
    → pos 0 <ℤ a
    → pos 0 <ℤ b
    → temp_of (grant_temp_hp (grant_temp_hp t a).0 b).0 ≡ temp_of (grant_temp_hp t (max_ℤ a b)).0
unfolding grant_temp_hp
grant_temp_hp_twice t a b p q = grind int_laws
