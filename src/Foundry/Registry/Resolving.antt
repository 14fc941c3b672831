-- ===== src/Foundry/Registry/Resolving.antt =====
-- foundry/registry.py: what `resolve` answers.
use ai_dm.Prelude.{
  Bool, Bool-cases, inl, inr, true, false, ◌≡◌, refl, sym, ◌∙◌, ap, Option, none, some, List, [],
  ◌∷◌, String, arith, is_some,
}
use ai_dm.Prelude.Dict.{Dict, get, string_key}
use ai_dm.Prelude.Text.{normalise}
use ai_dm.Foundry.Registry.{
  EntityKind, scene, actor, token, RegistryEntry, AliasKey, alias_key, Shelf, Registry, init,
  shelf_of, is_empty, key_of, returned,
}
use ai_dm.Foundry.Registry.Calls.{
  Call, run, resolve, resolve_on, lookup, get_entry, answer_of, matches, or_else, single,
}
use ai_dm.Foundry.Registry.Index.{IsIndexed, has_alias}
use ai_dm.Foundry.Registry.Invariant.{any_moved, run-IsIndexed}

abbrev pub is_token : EntityKind → Bool
is_token token = true
is_token _ = false

never_moved :
    (ordered : List String → List String) (kind : EntityKind) (cs : List Call) (r : Registry)
    → is_token kind ≡ false
    → any_moved ordered kind cs r ≡ false
never_moved ordered kind [] r h = refl
never_moved ordered scene (c ∷ cs) r h = never_moved ordered scene cs _ h
never_moved ordered actor (c ∷ cs) r h = never_moved ordered actor cs _ h
never_moved ordered token (c ∷ cs) r h = cc

lookup-plain :
    (kind : EntityKind) (s : Option String) (norm : String) (index : Dict AliasKey String)
    → is_token kind ≡ false
    → lookup kind s norm index ≡ get index (key_of kind s norm)
unfolding lookup
lookup-plain scene s norm index plain = refl
lookup-plain actor s norm index plain = refl
lookup-plain token s norm index plain = cc

-- A scene is needed for tokens alone.
abbrev pub names_scene : EntityKind → Option String → Bool
names_scene token s = is_some s
names_scene _ s = true

lookup-hit :
    (kind : EntityKind) (s : Option String) (norm fid : String) (index : Dict AliasKey String)
    → names_scene kind s ≡ true
    → get index (key_of kind s norm) ≡ some fid
    → lookup kind s norm index ≡ some fid
unfolding lookup
lookup-hit scene s norm fid index named found = found
lookup-hit actor s norm fid index named found = found
lookup-hit token (some s) norm fid index named found =
    ap (λ o. or_else o (single (matches norm index))) found
lookup-hit token none norm fid index named found = cc

module _ (kind : EntityKind) (sh : Shelf) (h : IsIndexed kind sh) where
  hit_registered :
      (s : Option String) (norm fid : String)
      → get sh.index (key_of kind s norm) ≡ some fid
      → is_some (get sh.entries fid) ≡ true
  hit_registered s norm fid found = ground (arith, h.0 (key_of kind s norm) fid found)

  lookup-registered :
      (s : Option String) (norm fid : String)
      → is_token kind ≡ false
      → answer_of (lookup kind s norm sh.index) ≡ returned fid
      → is_some (get sh.entries fid) ≡ true
  lookup-registered s norm fid plain found =
      hit_registered s norm fid (ground (arith, found, lookup-plain kind s norm sh.index plain))

  resolve_on-registered :
      (key : String) (s : Option String) (fid : String)
      → is_token kind ≡ false
      → resolve_on kind key s sh ≡ returned fid
      → is_some (get sh.entries fid) ≡ true
  unfolding resolve_on
  resolve_on-registered key s fid plain found = elim (Bool-cases (is_empty key)) [
    | inl e ↦ ground (arith, e, found)
    | inr e ↦ elim (Bool-cases (is_some (get sh.entries key))) [
      | inl i ↦ ground (arith, e, i, found)
      | inr o ↦ lookup-registered s (normalise key) fid plain (ground (arith, e, o, found))
    ]
  ]

  resolve_on-has_alias :
      (key : String) (s : Option String) (fid : String) (e : RegistryEntry)
      → get sh.entries fid ≡ some e
      → has_alias e key ≡ true
      → e.scene_id ≡ s
      → names_scene kind s ≡ true
      → is_empty (normalise key) ≡ false
      → is_empty key ≡ false
      → is_some (get sh.entries key) ≡ false
      → resolve_on kind key s sh ≡ returned fid
  unfolding resolve_on
  resolve_on-has_alias key s fid e at has same named norm_named key_named no_id =
      let found : get sh.index (key_of kind s (normalise key)) ≡ some fid =
        ap (λ t. get sh.index (key_of kind t (normalise key))) (sym same)
        ∙ (h.1 fid e at).1 key has norm_named in
      let hit : lookup kind s (normalise key) sh.index ≡ some fid =
        lookup-hit kind s (normalise key) fid sh.index named found in
      rw key_named (rw no_id (ap answer_of hit))

-- After any series of calls, what `resolve` returns for a scene or an actor is registered: no alias
-- leads to a document that is gone.
pub resolve-registered :
    (ordered : List String → List String) (kind : EntityKind) (cs : List Call) (key : String)
    (s : Option String) (fid : String)
    → is_token kind ≡ false
    → resolve kind key s (run ordered cs init) ≡ returned fid
    → is_some (get_entry kind fid (run ordered cs init)) ≡ true
unfolding resolve get_entry
resolve-registered ordered kind cs key s fid plain found =
    resolve_on-registered kind (shelf_of kind (run ordered cs init))
      (run-IsIndexed ordered kind cs (never_moved ordered kind cs init plain)) key s fid plain found

-- After any series of calls in which no token was registered under another scene: an alias of an entry,
-- not blank and not itself an id, resolves to the id of that entry, for a token within its scene.
pub resolve-has_alias :
    (ordered : List String → List String) (kind : EntityKind) (cs : List Call) (key : String)
    (s : Option String) (fid : String) (e : RegistryEntry)
    → any_moved ordered kind cs init ≡ false
    → get_entry kind fid (run ordered cs init) ≡ some e
    → has_alias e key ≡ true
    → e.scene_id ≡ s
    → names_scene kind s ≡ true
    → is_empty (normalise key) ≡ false
    → is_empty key ≡ false
    → get_entry kind key (run ordered cs init) ≡ none
    → resolve kind key s (run ordered cs init) ≡ returned fid
unfolding resolve get_entry
resolve-has_alias ordered kind cs key s fid e still at has same named norm_named key_named no_id =
    resolve_on-has_alias kind (shelf_of kind (run ordered cs init))
      (run-IsIndexed ordered kind cs still) key s fid e at has same named norm_named key_named
      (ap is_some no_id)
