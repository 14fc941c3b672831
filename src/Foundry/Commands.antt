-- ===== src/Foundry/Commands.antt =====
-- src/ai_dm/models/commands.py: the commands to Foundry, with the fields in the order of their classes;
-- and what Foundry sends back, which Python reads as JSON. A number of JSON is a whole one here.
use ai_dm.Prelude.{Bool, true, false, not, Option, none, some, List, String, str_eq, if◌then◌else◌}
use ai_dm.Prelude.Int.{ℤ, pos, eq_ℤ}

mutual
  pub data Json : Type 0 where
    null : Json
    boolean : Bool → Json
    number : ℤ → Json
    text : String → Json
    array : Items → Json
    object : Fields → Json

  pub data Items : Type 0 where
    empty_array : Items
    element : Json → Items → Items

  pub data Fields : Type 0 where
    empty_object : Fields
    member : String → Json → Fields → Fields

-- The truth value that Python gives to each.
abbrev pub truthy : Json → Bool
truthy null = false
truthy (boolean b) = b
truthy (number n) = not (eq_ℤ n (pos 0))
truthy (text s) = not (str_eq s "")
truthy (array empty_array) = false
truthy (array (element j js)) = true
truthy (object empty_object) = false
truthy (object (member k j fs)) = true

-- `d.get(key)`
unfoldable pub field_of : String → Fields → Option Json
field_of key empty_object = none
field_of key (member k j fs) = if str_eq k key then some j else field_of key fs

pub data GameCommand : Type 0 where
  move_token : String → ℤ → ℤ → Option String → GameCommand
  move_actor_to :
      String
      → Option String
      → Option String
      → Option String
      → Option ℤ
      → Option ℤ
      → Option ℤ
      → Option String
      → Option ℤ
      → Option ℤ
      → GameCommand
  activate_scene : String → GameCommand
  update_actor : String → Fields → GameCommand
  highlight_object : String → GameCommand
  create_scene : String → ℤ → ℤ → ℤ → GameCommand
  spawn_token : String → String → ℤ → ℤ → Option String → GameCommand
  create_actor : String → String → Fields → Option String → List Fields → List String → GameCommand
  delete_token : String → String → GameCommand
  delete_actor : String → GameCommand
  delete_scene : String → GameCommand
  read_token : String → String → GameCommand
  read_actor : String → GameCommand
  read_active_scene : GameCommand
  create_journal : String → String → Option String → GameCommand
  update_journal : String → Option String → Option String → GameCommand
  create_note : Option String → ℤ → ℤ → String → Option String → GameCommand
  give_item : String → String → ℤ → Option String → GameCommand
  apply_damage : String → ℤ → String → Bool → GameCommand
