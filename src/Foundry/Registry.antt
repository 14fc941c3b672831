-- ===== src/Foundry/Registry.antt =====
-- src/ai_dm/foundry/registry.py: the documents of Foundry by id, and the index of their aliases. A call
-- holds the lock, so it is one step. The time at which an entry was made is left out. Python goes
-- through a set of aliases in an order of its own: `ordered` lists the set in that order.
pub mod Calls
pub mod Index
pub mod Linking
pub mod Removing
pub mod Invariant
pub mod Resolving
mod Examples
use ai_dm.Prelude.{
  ℕ, Bool, true, false, not, ◌&&◌, ◌||◌, ◌≡◌, refl, ◌↔◌, Option, none, some, List, [], ◌∷◌, String,
  arith, str_eq, eq_iff, if◌then◌else◌, exists_in, get_or_default, is_some,
}
use ai_dm.Prelude.Dict.{Dict, Key, get, put, pop, string_key}
use ai_dm.Prelude.Text.{normalise}

pub data EntityKind : Type 0 where
  scene actor token : EntityKind

pub record RegistryEntry : Type 0 where
  pub kind : EntityKind
  pub foundry_id : String
  pub name : String
  pub aliases : List String
  pub scene_id : Option String

-- The key of a token's alias is its scene and the alias; that of a scene or an actor is the alias alone,
-- here with no scene.
abbrev pub AliasKey : Type 0
AliasKey = Option String × String

abbrev pub same_scene : Option String → Option String → Bool
same_scene none none = true
same_scene (some s) (some t) = str_eq s t
same_scene _ _ = false

abbrev pub same_key : AliasKey → AliasKey → Bool
same_key (s, a) (t, b) = same_scene s t && str_eq a b

pub same_scene_iff : (s t : Option String) → (same_scene s t ≡ true) ↔ (s ≡ t)
same_scene_iff none none = (λ h. refl, λ h. refl)
same_scene_iff none (some t) = (λ h. ground (arith, h), λ h. ground (arith, h))
same_scene_iff (some s) none = (λ h. ground (arith, h), λ h. ground (arith, h))
same_scene_iff (some s) (some t) =
    (λ h. ground (arith, h, eq_iff s t), λ h. ground (arith, h, eq_iff s t))

pub same_key_iff : (k j : AliasKey) → (same_key k j ≡ true) ↔ (k ≡ j)
same_key_iff (s, a) (t, b) = (
  λ h. ground (arith, h, same_scene_iff s t, eq_iff a b),
  λ h. ground (arith, h, same_scene_iff s t, eq_iff a b),
)

instance abbrev pub alias_key : Key AliasKey
alias_key = record { same = same_key; same_iff = same_key_iff }

-- What the registry holds of one kind.
pub record Shelf : Type 0 where
  pub entries : Dict String RegistryEntry
  pub index : Dict AliasKey String

pub record Registry : Type 0 where
  pub scenes : Shelf
  pub actors : Shelf
  pub tokens : Shelf

abbrev pub init : Registry
init =
    let shelf : Shelf = record { entries = []; index = [] } in
    record { scenes = shelf; actors = shelf; tokens = shelf }

abbrev pub shelf_of : EntityKind → Registry → Shelf
shelf_of scene r = r.scenes
shelf_of actor r = r.actors
shelf_of token r = r.tokens

abbrev pub set_shelf : EntityKind → Shelf → Registry → Registry
set_shelf scene s r = record r { scenes = s }
set_shelf actor s r = record r { actors = s }
set_shelf token s r = record r { tokens = s }

-- What a call returns or raises.
pub data Answer {ℓ} (A : Type ℓ) : Type ℓ where
  returned : A → Answer A
  value_error registry_miss : Answer A

abbrev pub key_of : EntityKind → Option String → String → AliasKey
key_of scene scene_id norm = (none, norm)
key_of actor scene_id norm = (none, norm)
key_of token scene_id norm = (scene_id, norm)

abbrev pub is_empty : String → Bool
is_empty s = str_eq s ""

-- `existing and existing != foundry_id`
abbrev pub is_taken : Option String → String → Bool
is_taken none foundry_id = false
is_taken (some existing) foundry_id = not (is_empty existing) && not (str_eq existing foundry_id)

-- none: the `ValueError`.
unfoldable pub add_alias_locked :
    EntityKind
    → String
    → String
    → Option String
    → Dict AliasKey String
    → Option (Dict AliasKey String)
add_alias_locked kind foundry_id alias scene_id index =
    let norm = normalise alias in
    let key = key_of kind scene_id norm in
    if is_empty norm
    then some index
    else if is_taken (get index key) foundry_id
    then none
    else some (put index key foundry_id)

unfoldable pub remove_alias_locked :
    EntityKind → String → Option String → Dict AliasKey String → Dict AliasKey String
remove_alias_locked kind alias scene_id index = pop index (key_of kind scene_id (normalise alias))

-- `entry.aliases.add(alias)`
abbrev pub set_add : String → List String → List String
set_add alias aliases = if exists_in (str_eq alias) aliases then aliases else alias ∷ aliases

-- The two lines that `register` and `add_alias` share; `entry` is what the shelf has for the id.
abbrev linked :
    String → RegistryEntry → String → Shelf → Option (Dict AliasKey String) → Option Shelf
linked foundry_id entry alias shelf none = none
linked foundry_id entry alias shelf (some index) = some (record {
  entries = put shelf.entries foundry_id (record entry { aliases = set_add alias entry.aliases });
  index = index;
})

unfoldable pub link : EntityKind → String → RegistryEntry → String → Shelf → Option Shelf
unfolding add_alias_locked
link kind foundry_id entry alias shelf =
    linked foundry_id entry alias shelf
      (add_alias_locked kind foundry_id alias entry.scene_id shelf.index)

-- The loop of `register`: an error leaves what was added before it.
unfoldable pub link_all :
    EntityKind → String → RegistryEntry → List String → Shelf → Shelf × Answer RegistryEntry
unfolding link
link_all kind foundry_id entry [] shelf = (shelf, returned entry)
link_all kind foundry_id entry (alias ∷ aliases) shelf =
    elim (link kind foundry_id entry alias shelf) [
      | none ↦ (shelf, value_error)
      | some after ↦
          link_all kind foundry_id (record entry { aliases = set_add alias entry.aliases }) aliases
            after
    ]
