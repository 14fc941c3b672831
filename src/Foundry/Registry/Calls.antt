-- ===== src/Foundry/Registry/Calls.antt =====
-- foundry/registry.py: the methods, and series of calls of them.
use ai_dm.Prelude.{
  Bool, false, ◌||◌, Option, none, some, List, [], ◌∷◌, String, str_eq, if◌then◌else◌,
  get_or_default, is_some,
}
use ai_dm.Prelude.Dict.{Dict, get, put, pop, string_key}
use ai_dm.Prelude.Text.{normalise}
use ai_dm.Foundry.Registry.{
  EntityKind, scene, actor, token, RegistryEntry, AliasKey, alias_key, Shelf, Registry, shelf_of,
  set_shelf, Answer, returned, value_error, registry_miss, is_empty, link, link_all,
  remove_alias_locked,
}

-- The entry that `register` makes or corrects, before its aliases.
unfoldable pub entry_for :
    EntityKind → String → String → Option String → Option RegistryEntry → RegistryEntry
entry_for kind foundry_id name scene_id none = record {
  kind = kind;
  foundry_id = foundry_id;
  name = name;
  aliases = [];
  scene_id = scene_id;
}
entry_for kind foundry_id name none (some entry) = record entry { name = name }
entry_for kind foundry_id name (some s) (some entry) = record entry {
  name = name;
  scene_id = some s;
}

abbrev pub lacks_scene : EntityKind → Option String → Bool
lacks_scene token scene_id = is_empty (get_or_default "" scene_id)
lacks_scene _ scene_id = false

module _ (ordered : List String → List String) where
  unfoldable pub register_on :
      EntityKind
      → String
      → String
      → List String
      → Option String
      → Shelf
      → Shelf × Answer RegistryEntry
  unfolding entry_for link_all
  register_on kind foundry_id name aliases scene_id shelf =
      if is_empty foundry_id || is_empty name || lacks_scene kind scene_id
      then (shelf, value_error)
      else let entry = entry_for kind foundry_id name scene_id (get shelf.entries foundry_id) in
        link_all kind foundry_id entry (ordered (name ∷ foundry_id ∷ aliases))
          (record shelf { entries = put shelf.entries foundry_id entry })

  unfoldable pub register :
      EntityKind
      → String
      → String
      → List String
      → Option String
      → Registry
      → Registry × Answer RegistryEntry
  unfolding register_on
  register kind foundry_id name aliases scene_id r =
      let out = register_on kind foundry_id name aliases scene_id (shelf_of kind r) in
      (set_shelf kind out.0 r, out.1)

abbrev pub added : Shelf → Option Shelf → Shelf × Answer (Unit {0})
added shelf none = (shelf, value_error)
added shelf (some after) = (after, returned tt)

unfoldable pub add_alias_on :
    EntityKind → String → String → Shelf → Option RegistryEntry → Shelf × Answer (Unit {0})
unfolding link
add_alias_on kind foundry_id alias shelf none = (shelf, registry_miss)
add_alias_on kind foundry_id alias shelf (some entry) =
    added shelf (link kind foundry_id entry alias shelf)

unfoldable pub add_alias : EntityKind → String → String → Registry → Registry × Answer (Unit {0})
unfolding add_alias_on
add_alias kind foundry_id alias r =
    let shelf = shelf_of kind r in
    let out = add_alias_on kind foundry_id alias shelf (get shelf.entries foundry_id) in
    (set_shelf kind out.0 r, out.1)

-- The loop of `unregister`.
unfoldable pub remove_all :
    EntityKind → Option String → List String → Dict AliasKey String → Dict AliasKey String
unfolding remove_alias_locked
remove_all kind scene_id [] index = index
remove_all kind scene_id (alias ∷ aliases) index =
    remove_all kind scene_id aliases (remove_alias_locked kind alias scene_id index)

unfoldable pub unregister_on : EntityKind → String → Shelf → Option RegistryEntry → Shelf
unfolding remove_all
unregister_on kind foundry_id shelf none = shelf
unregister_on kind foundry_id shelf (some entry) = record {
  entries = pop shelf.entries foundry_id;
  index = remove_all kind entry.scene_id entry.aliases shelf.index;
}

unfoldable pub unregister : EntityKind → String → Registry → Registry × Option RegistryEntry
unfolding unregister_on
unregister kind foundry_id r =
    let shelf = shelf_of kind r in
    let entry = get shelf.entries foundry_id in
    (set_shelf kind (unregister_on kind foundry_id shelf entry) r, entry)

-- `[fid for (sid, alias), fid in ... if alias == norm]`
unfoldable pub matches : String → Dict AliasKey String → List String
matches norm [] = []
matches norm (((s, alias), foundry_id) ∷ index) =
    let rest = matches norm index in if str_eq alias norm then foundry_id ∷ rest else rest

abbrev pub single : List String → Option String
single (hit ∷ []) = some hit
single _ = none

abbrev pub or_else : Option String → Option String → Option String
or_else none fallback = fallback
or_else (some hit) fallback = some hit

abbrev pub in_scene : Dict AliasKey String → Option String → String → Option String
in_scene index none norm = none
in_scene index (some s) norm = get index (some s, norm)

unfoldable pub lookup : EntityKind → Option String → String → Dict AliasKey String → Option String
unfolding matches
lookup scene scene_id norm index = get index (none, norm)
lookup actor scene_id norm index = get index (none, norm)
lookup token scene_id norm index =
    or_else (in_scene index scene_id norm) (single (matches norm index))

abbrev pub answer_of : Option String → Answer String
answer_of none = registry_miss
answer_of (some hit) = returned hit

unfoldable pub resolve_on : EntityKind → String → Option String → Shelf → Answer String
unfolding lookup
resolve_on kind key scene_id shelf =
    if is_empty key
    then registry_miss
    else if is_some (get shelf.entries key)
    then returned key
    else answer_of (lookup kind scene_id (normalise key) shelf.index)

unfoldable pub resolve : EntityKind → String → Option String → Registry → Answer String
unfolding resolve_on
resolve kind key scene_id r = resolve_on kind key scene_id (shelf_of kind r)

unfoldable pub get_entry : EntityKind → String → Registry → Option RegistryEntry
get_entry kind foundry_id r = get (shelf_of kind r).entries foundry_id

pub data Call : Type 0 where
  registering : EntityKind → String → String → List String → Option String → Call
  adding : EntityKind → String → String → Call
  unregistering : EntityKind → String → Call

module _ (ordered : List String → List String) where
  unfoldable pub apply : Call → Registry → Registry
  unfolding register add_alias unregister
  apply (registering kind foundry_id name aliases scene_id) r =
      (register ordered kind foundry_id name aliases scene_id r).0
  apply (adding kind foundry_id alias) r = (add_alias kind foundry_id alias r).0
  apply (unregistering kind foundry_id) r = (unregister kind foundry_id r).0

  unfoldable pub run : List Call → Registry → Registry
  unfolding apply
  run [] r = r
  run (c ∷ cs) r = run cs (apply c r)
