-- ===== src/Rules/Damage.antt =====
-- src/ai_dm/rules/damage.py: damage modifiers, temporary hit points, healing.
pub mod Pool
pub mod Modifiers
mod Examples
use ai_dm.Prelude.{
  ℕ, ◌≡◌, Bool, true, false, ◌&&◌, Option, none, some, List, String, str_eq, if◌then◌else◌,
  get_or_default, exists_in,
}
use ai_dm.Prelude.Int.{ℤ, pos, ◌+ℤ◌, ◌-ℤ◌, ◌*ℤ◌, leb_ℤ, ltb_ℤ, eq_ℤ, min_ℤ, max_ℤ, div_ℤ}

-- `damage_type in set(kinds)`
unfoldable pub in_kinds : String → List String → Bool
in_kinds k = exists_in (λ j. str_eq j k)

unfoldable pub apply_modifiers : ℤ → String → List String → List String → List String → ℤ
apply_modifiers amount damage_type resistances vulnerabilities immunities =
    let in_res = in_kinds damage_type resistances in
    let in_vuln = in_kinds damage_type vulnerabilities in
    if leb_ℤ amount (pos 0)
    then pos 0
    else if in_kinds damage_type immunities
    then pos 0
    else if in_res && in_vuln
    then amount
    else if in_vuln
    then amount *ℤ 2
    else if in_res
    then div_ℤ amount 2
    else amount

-- What `_get` and `_set` reach: an attribute or key that may be missing.
pub record Target : Type 0 where
  pub hp : Option ℤ
  pub temp_hp : Option ℤ
  pub max_hp : Option ℤ

pub record DamageOutcome : Type 0 where
  pub requested : ℤ
  pub absorbed_by_temp_hp : ℤ
  pub dealt : ℤ
  pub hp_before : ℤ
  pub hp_after : ℤ
  pub dropped_to_zero : Bool
  pub damage_type : String

unfoldable pub apply_damage : Target → ℤ → String → Target × DamageOutcome
apply_damage target amount damage_type =
    let requested = max_ℤ (pos 0) amount in
    let hp_before = get_or_default (pos 0) target.hp in
    let temp = get_or_default (pos 0) target.temp_hp in
    let absorbed = min_ℤ temp requested in
    let remaining = requested -ℤ absorbed in
    let hp_after = max_ℤ (pos 0) (hp_before -ℤ remaining) in
    if eq_ℤ requested (pos 0)
    then (
      target,
      record {
        requested = pos 0;
        absorbed_by_temp_hp = pos 0;
        dealt = pos 0;
        hp_before = hp_before;
        hp_after = hp_before;
        dropped_to_zero = false;
        damage_type = damage_type;
      },
    )
    else (
      record target {
        temp_hp = if eq_ℤ absorbed (pos 0) then target.temp_hp else some (temp -ℤ absorbed);
        hp = some hp_after;
      },
      record {
        requested = requested;
        absorbed_by_temp_hp = absorbed;
        dealt = remaining;
        hp_before = hp_before;
        hp_after = hp_after;
        dropped_to_zero = ltb_ℤ (pos 0) hp_before && eq_ℤ hp_after (pos 0);
        damage_type = damage_type;
      },
    )

-- `max_hp or (hp + amount)`: a maximum of 0 counts as missing.
unfoldable pub apply_healing : Target → ℤ → Target × ℤ
apply_healing target amount =
    let hp = get_or_default (pos 0) target.hp in
    let max_hp = get_or_default (hp +ℤ amount) target.max_hp in
    let new_hp = min_ℤ (if eq_ℤ max_hp (pos 0) then hp +ℤ amount else max_hp) (hp +ℤ amount) in
    if leb_ℤ amount (pos 0) then (target, hp) else (record target { hp = some new_hp }, new_hp)

unfoldable pub grant_temp_hp : Target → ℤ → Target × ℤ
grant_temp_hp target amount =
    let cur = get_or_default (pos 0) target.temp_hp in
    let new = max_ℤ cur amount in
    if leb_ℤ amount (pos 0) then (target, cur) else (record target { temp_hp = some new }, new)
