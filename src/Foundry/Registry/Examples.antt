-- ===== src/Foundry/Registry/Examples.antt =====
-- Runs of foundry/registry.py, with the sets of aliases in the order in which they are written.
use ai_dm.Prelude.{true, ◌≡◌, refl, none, some, List, [], ◌∷◌, String, is_some}
use ai_dm.Prelude.Dict.{get, put, pop}
use ai_dm.Prelude.Text.{normalise}
use ai_dm.Foundry.Registry.{actor, token, RegistryEntry, init, shelf_of, returned}
use ai_dm.Foundry.Registry.Calls.{Call, registering, adding, unregistering, run, resolve, get_entry}
use ai_dm.Foundry.Registry.Index.{IsIndexed}
use ai_dm.Foundry.Registry.Invariant.{run-IsIndexed}
use ai_dm.Foundry.Registry.Resolving.{resolve-registered, resolve-has_alias}

abbrev as_written : List String → List String
as_written names = names

abbrev tavern : List Call
tavern =
    registering actor "a1" "Bran" ("the smith" ∷ []) none
    ∷ adding actor "a1" "Bran the Bold"
    ∷ registering token "t1" "Bran" [] (some "inn")
    ∷ registering token "t2" "bran" [] (some "yard")
    ∷ registering actor "a2" "BRAN " [] none
    ∷ unregistering token "t2"
    ∷ []

-- A token that is registered again in another scene, and then removed.
abbrev moving : List Call
moving =
    registering token "t1" "Bran" [] (some "inn")
    ∷ registering token "t1" "Bran" [] (some "yard")
    ∷ unregistering token "t1"
    ∷ []

stale_alias : resolve token "bran" (some "inn") (run as_written moving init) ≡ returned "t1"
unfolding run resolve get put pop normalise
stale_alias = refl

stale_entry : get_entry token "t1" (run as_written moving init) ≡ none
unfolding run get_entry get put pop normalise
stale_entry = refl

-- The refused name is taken; the entry stays behind without it.
refused_entry : is_some (get_entry actor "a2" (run as_written tavern init)) ≡ true
unfolding run get_entry get put pop normalise
refused_entry = refl

run-IsIndexed_example : IsIndexed actor (shelf_of actor (run as_written tavern init))
run-IsIndexed_example = run-IsIndexed as_written actor tavern refl

resolve-registered_example : is_some (get_entry actor "a1" (run as_written tavern init)) ≡ true
unfolding run resolve get put pop normalise
resolve-registered_example =
    resolve-registered as_written actor tavern " the Smith" none "a1" refl refl

abbrev bran : RegistryEntry
bran = record {
  kind = actor;
  foundry_id = "a1";
  name = "Bran";
  aliases = "Bran the Bold" ∷ "the smith" ∷ "a1" ∷ "Bran" ∷ [];
  scene_id = none;
}

resolve-has_alias_example :
    resolve actor "the smith" none (run as_written tavern init) ≡ returned "a1"
unfolding run get_entry get put pop normalise
resolve-has_alias_example =
    resolve-has_alias as_written actor tavern "the smith" none "a1" bran refl refl refl refl refl
      refl refl refl
