-- ===== src/Rules/Rests/Progress.antt =====
-- RestProgress of src/ai_dm/rules/rests.py. `complete_rest` is given the progress that it finds, and
-- returns the one that it leaves on the actor.
use ai_dm.Prelude.{ℕ, Bool, true, false, not, ◌||◌, Option, none, some, String, if◌then◌else◌}
use ai_dm.Prelude.Int.{ℤ, pos, ◌+ℤ◌, ◌*ℤ◌, leb_ℤ, ltb_ℤ, eq_ℤ, max_ℤ, div_ℤ}
use ai_dm.Prelude.Dict.{Dict}
use ai_dm.Rules.Rests.{RestKind, short, long, RestResult, Actor, apply_short_rest, apply_long_rest}

pub record RestProgress : Type 0 where
  pub kind : RestKind
  pub started_round : Option ℤ
  pub started_minute : Option ℤ
  pub elapsed_minutes : ℤ
  pub interrupted : Bool
  pub completed : Bool
  pub strenuous_minutes : ℤ
  pub combat_rounds : ℤ

unfoldable pub begin_short_rest : Option ℤ → Option ℤ → RestProgress
begin_short_rest started_round started_minute = record {
  kind = short;
  started_round = started_round;
  started_minute = started_minute;
  elapsed_minutes = pos 0;
  interrupted = false;
  completed = false;
  strenuous_minutes = pos 0;
  combat_rounds = pos 0;
}

unfoldable pub begin_long_rest : Option ℤ → RestProgress
begin_long_rest started_minute = record {
  kind = long;
  started_round = none;
  started_minute = started_minute;
  elapsed_minutes = pos 0;
  interrupted = false;
  completed = false;
  strenuous_minutes = pos 0;
  combat_rounds = pos 0;
}

abbrev pub required_minutes : RestKind → ℤ
required_minutes short = pos 60
required_minutes long = pos 480

abbrev pub is_short : RestKind → Bool
is_short short = true
is_short long = false

-- The progress after the call; `advance` returns its `completed`.
unfoldable pub advance : RestProgress → ℤ → RestProgress
advance p minutes =
    let elapsed = p.elapsed_minutes +ℤ minutes in
    if p.completed || p.interrupted
    then p
    else record p { elapsed_minutes = elapsed; completed = leb_ℤ (required_minutes p.kind) elapsed }

pub data Interruption : Type 0 where
  combat : ℤ → Interruption
  strenuous : ℤ → Interruption
  damage : Interruption

-- The progress after the call; `interrupt` returns its `interrupted`.
unfoldable pub interrupt : RestProgress → Interruption → RestProgress
interrupt p (combat rounds) = record p {
  combat_rounds = p.combat_rounds +ℤ (if eq_ℤ rounds (pos 0) then pos 1 else rounds);
  interrupted = if is_short p.kind then true else p.interrupted;
  strenuous_minutes =
      if is_short p.kind
      then p.strenuous_minutes
      else p.strenuous_minutes +ℤ max_ℤ (pos 1) (div_ℤ (rounds *ℤ 6) 60);
}
interrupt p (strenuous minutes) =
    let total = p.strenuous_minutes +ℤ minutes in
    record p {
      strenuous_minutes = total;
      interrupted =
          (if is_short p.kind then ltb_ℤ (pos 0) minutes else leb_ℤ (pos 60) total)
          || p.interrupted;
    }
interrupt p damage = record p { interrupted = true }

-- The effects of the kind of rest.
unfoldable pub apply_rest :
    RestKind → Actor → Dict String ℤ → Option (ℕ → ℤ) → ℤ → Actor × RestResult
apply_rest short actor wanted roller con_modifier =
    apply_short_rest actor wanted roller con_modifier
apply_rest long actor wanted roller con_modifier = apply_long_rest actor

unfoldable pub complete_rest :
    Actor
    → Option RestProgress
    → Dict String ℤ
    → Option (ℕ → ℤ)
    → ℤ
    → Actor × Option RestProgress × Option RestResult
unfolding apply_rest
complete_rest actor none wanted roller con_modifier = (actor, none, none)
complete_rest actor (some p) wanted roller con_modifier =
    let (rested, result) = apply_rest p.kind actor wanted roller con_modifier in
    if not p.completed || p.interrupted then (actor, some p, none) else (rested, none, some result)
