-- ===== src/Game/Condition.antt =====
-- src/ai_dm/game/condition_instance.py: a condition on a combatant. The fields that no code here
-- reads (`applied_round`, `level`, `notes`, `metadata`) are left out; `key` is the key that the
-- validator has normalised.
use ai_dm.Prelude.{
  Bool, true, false, not, ◌&&◌, Option, String, str_eq, if◌then◌else◌, get_or_default, is_some,
}
use ai_dm.Prelude.Int.{ℤ, pos, negsuc, ltb_ℤ, leb_ℤ, eq_ℤ}

pub data SaveTiming : Type 0 where
  start_of_turn end_of_turn : SaveTiming

pub data ExpiryTrigger : Type 0 where
  start_of_target_turn end_of_target_turn start_of_source_turn end_of_source_turn : ExpiryTrigger
  end_of_encounter never : ExpiryTrigger

abbrev pub eq_timing : SaveTiming → SaveTiming → Bool
eq_timing start_of_turn start_of_turn = true
eq_timing end_of_turn end_of_turn = true
eq_timing _ _ = false

abbrev pub eq_trigger : ExpiryTrigger → ExpiryTrigger → Bool
eq_trigger start_of_target_turn start_of_target_turn = true
eq_trigger end_of_target_turn end_of_target_turn = true
eq_trigger start_of_source_turn start_of_source_turn = true
eq_trigger end_of_source_turn end_of_source_turn = true
eq_trigger end_of_encounter end_of_encounter = true
eq_trigger never never = true
eq_trigger _ _ = false

pub record SaveToEnd : Type 0 where
  pub ability : String
  pub dc : ℤ
  pub when : SaveTiming
  pub advantage : Bool
  pub disadvantage : Bool

pub record ConcentrationLink : Type 0 where
  pub caster_id : String
  pub spell_id : String

pub record ConditionInstance : Type 0 where
  pub key : String
  pub source : String
  pub expires_at_round : Option ℤ
  pub duration_rounds : Option ℤ
  pub expires_on : ExpiryTrigger
  pub save_to_end : Option SaveToEnd
  pub concentration_link : Option ConcentrationLink
  pub id : String

-- `a.dedupe_key == b.dedupe_key`
unfoldable pub same_dedupe : ConditionInstance → ConditionInstance → Bool
same_dedupe a b = str_eq a.key b.key && str_eq a.source b.source

unfoldable pub is_permanent : ConditionInstance → Bool
is_permanent i =
    eq_trigger i.expires_on never
    && (not (is_some i.expires_at_round) && not (is_some i.duration_rounds))

unfoldable pub supersedes : ConditionInstance → ConditionInstance → Bool
unfolding is_permanent
supersedes new old =
    let s_end = get_or_default (negsuc 0) new.expires_at_round in
    let o_end = get_or_default (negsuc 0) old.expires_at_round in
    let s_dur = get_or_default (pos 0) new.duration_rounds in
    let o_dur = get_or_default (pos 0) old.duration_rounds in
    if is_permanent old
    then false
    else if is_permanent new
    then true
    else if not (eq_ℤ s_end o_end)
    then ltb_ℤ o_end s_end
    else leb_ℤ o_dur s_dur
