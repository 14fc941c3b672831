-- ===== src/Foundry/Registry/Invariant.antt =====
-- foundry/registry.py: the index and the entries after any series of calls.
use ai_dm.Prelude.{
  Bool, false, not, ◌||◌, ◌≡◌, refl, sym, ap, Option, none, some, List, [], ◌∷◌, String, arith,
  if-cases,
}
use mathlib.Core.Path.{subst}
use ai_dm.Prelude.Dict.{get, put, string_key, get-put_self}
use ai_dm.Foundry.Registry.{
  EntityKind, scene, actor, token, RegistryEntry, alias_key, Shelf, Registry, init, shelf_of,
  set_shelf, same_scene, same_scene_iff, is_empty, key_of, Answer,
}
use ai_dm.Foundry.Registry.Calls.{
  lacks_scene, entry_for, register_on, register, add_alias_on, add_alias, unregister, Call,
  registering, adding, unregistering, apply, run,
}
use ai_dm.Foundry.Registry.Index.{IsIndexed, IsIndexed-new, IsIndexed-update}
use ai_dm.Foundry.Registry.Linking.{HasEntry, link-IsIndexed, link_all-IsIndexed}
use ai_dm.Foundry.Registry.Removing.{unregister_on-IsIndexed}

-- Whether registering changes the scene of an entry that is there.
abbrev changes_scene : Option String → Option RegistryEntry → Bool
changes_scene (some s) (some e) = not (same_scene (some s) e.scene_id)
changes_scene _ _ = false

abbrev is_moved : EntityKind → Option String → Option RegistryEntry → Bool
is_moved token scene_id o = changes_scene scene_id o
is_moved _ scene_id o = false

-- Whether the call takes a token of the registry into another scene.
abbrev moved : EntityKind → Call → Registry → Bool
moved token (registering token fid name aliases scene_id) r =
    changes_scene scene_id (get r.tokens.entries fid)
moved _ _ r = false

same_keys :
    (kind : EntityKind) (name s norm : String) (e : RegistryEntry)
    → is_moved kind (some s) (some e) ≡ false
    → key_of kind (some s) norm ≡ key_of kind e.scene_id norm
same_keys scene name s norm e still = refl
same_keys actor name s norm e still = refl
same_keys token name s norm e still =
    ap (λ (t : Option String). (t, norm))
      ((same_scene_iff (some s) e.scene_id).0 (ground (arith, still)))

entry-HasEntry :
    (kind : EntityKind) (fid name : String) (scene_id : Option String) (sh : Shelf)
    (o : Option RegistryEntry)
    → IsIndexed kind sh
    → is_empty fid ≡ false
    → get sh.entries fid ≡ o
    → is_moved kind scene_id o ≡ false
    → HasEntry kind fid
        (entry_for kind fid name scene_id o)
        (record sh { entries = put sh.entries fid (entry_for kind fid name scene_id o) })
unfolding entry_for
entry-HasEntry kind fid name scene_id sh none h named at still =
    (IsIndexed-new kind sh h fid _ named at refl, get-put_self sh.entries fid _)
entry-HasEntry kind fid name none sh (some e) h named at still =
    (IsIndexed-update kind sh h fid e _ at refl (λ norm. refl), get-put_self sh.entries fid _)
entry-HasEntry kind fid name (some s) sh (some e) h named at still = (
  IsIndexed-update kind sh h fid e _ at refl (λ norm. same_keys kind name s norm e still),
  get-put_self sh.entries fid _,
)

register_on-IsIndexed :
    (ordered : List String → List String) (kind : EntityKind) (fid name : String)
    (aliases : List String) (scene_id : Option String) (sh : Shelf)
    → IsIndexed kind sh
    → is_moved kind scene_id (get sh.entries fid) ≡ false
    → IsIndexed kind (register_on ordered kind fid name aliases scene_id sh).0
unfolding register_on
register_on-IsIndexed ordered kind fid name aliases scene_id sh h still =
    if-cases (λ (out : Shelf × Answer RegistryEntry). IsIndexed kind out.0)
      (is_empty fid || is_empty name || lacks_scene kind scene_id) (λ refused. h)
      (λ fine. link_all-IsIndexed kind fid _ _ _ (
        entry-HasEntry kind fid name scene_id sh (get sh.entries fid) h (ground (arith, fine)) refl
          still))

add_alias_on-IsIndexed :
    (kind : EntityKind) (fid alias : String) (sh : Shelf) (o : Option RegistryEntry)
    → IsIndexed kind sh
    → get sh.entries fid ≡ o
    → IsIndexed kind (add_alias_on kind fid alias sh o).0
unfolding add_alias_on
add_alias_on-IsIndexed kind fid alias sh none h at = h
add_alias_on-IsIndexed kind fid alias sh (some e) h at = link-IsIndexed kind fid alias e sh (h, at)

-- A write to the shelf of a kind leaves those of the other kinds.
set_shelf-keeps :
    (P : Shelf → Type 0) (k kind : EntityKind) (sh : Shelf) (r : Registry)
    → P (shelf_of kind r)
    → (k ≡ kind → P sh)
    → P (shelf_of kind (set_shelf k sh r))
set_shelf-keeps P scene scene sh r h new = new refl
set_shelf-keeps P actor actor sh r h new = new refl
set_shelf-keeps P token token sh r h new = new refl
set_shelf-keeps P scene actor sh r h new = h
set_shelf-keeps P scene token sh r h new = h
set_shelf-keeps P actor scene sh r h new = h
set_shelf-keeps P actor token sh r h new = h
set_shelf-keeps P token scene sh r h new = h
set_shelf-keeps P token actor sh r h new = h

moved-is_moved :
    (k kind : EntityKind) (fid name : String) (aliases : List String) (s : Option String)
    (r : Registry)
    → k ≡ kind
    → moved kind (registering k fid name aliases s) r ≡ false
    → is_moved k s (get (shelf_of k r).entries fid) ≡ false
moved-is_moved scene kind fid name aliases s r same still = refl
moved-is_moved actor kind fid name aliases s r same still = refl
moved-is_moved token token fid name aliases s r same still = still
moved-is_moved token scene fid name aliases s r same still = cc
moved-is_moved token actor fid name aliases s r same still = cc

module _ (ordered : List String → List String) (kind : EntityKind) where
  abbrev Keeps : Registry → Type 0
  Keeps r = IsIndexed kind (shelf_of kind r)

  -- A call at the kind itself keeps what a call at any kind keeps.
  at_kind :
      (k : EntityKind) (r : Registry) (sh : Shelf)
      → Keeps r
      → (k ≡ kind → IsIndexed k (shelf_of k r) → IsIndexed k sh)
      → Keeps (set_shelf k sh r)
  at_kind k r sh h step = set_shelf-keeps (IsIndexed kind) k kind sh r h (λ same.
      subst (λ m. IsIndexed m sh) same
        (step same (subst (λ m. IsIndexed m (shelf_of m r)) (sym same) h)))

  apply-IsIndexed :
      (c : Call) (r : Registry) → Keeps r → moved kind c r ≡ false → Keeps (apply ordered c r)
  unfolding apply register add_alias unregister
  apply-IsIndexed (registering k fid name aliases s) r h still = at_kind k r _ h (λ same was.
      register_on-IsIndexed ordered k fid name aliases s (shelf_of k r) was
        (moved-is_moved k kind fid name aliases s r same still))
  apply-IsIndexed (adding k fid alias) r h still = at_kind k r _ h (λ same was.
      add_alias_on-IsIndexed k fid alias (shelf_of k r) (get (shelf_of k r).entries fid) was refl)
  apply-IsIndexed (unregistering k fid) r h still = at_kind k r _ h (λ same was.
      unregister_on-IsIndexed k (shelf_of k r) was fid (get (shelf_of k r).entries fid) refl)

  -- Whether any of the calls moves a token.
  abbrev pub any_moved : List Call → Registry → Bool
  any_moved [] r = false
  any_moved (c ∷ cs) r = moved kind c r || any_moved cs (apply ordered c r)

  run_from-IsIndexed :
      (cs : List Call) (r : Registry) → Keeps r → any_moved cs r ≡ false → Keeps (run ordered cs r)
  unfolding run
  run_from-IsIndexed [] r h still = h
  run_from-IsIndexed (c ∷ cs) r h still =
      run_from-IsIndexed cs (apply ordered c r) (apply-IsIndexed c r h (ground (arith, still)))
        (ground (arith, still))

init-IsIndexed : (kind : EntityKind) → IsIndexed kind (shelf_of kind init)
unfolding get
init-IsIndexed scene = (λ key fid h. cc, λ fid e h. cc)
init-IsIndexed actor = (λ key fid h. cc, λ fid e h. cc)
init-IsIndexed token = (λ key fid h. cc, λ fid e h. cc)

-- After any series of calls, errors included and whatever the order in which sets are gone through,
-- each key of the index leads to a registered entry that has an alias of that key, and each alias of an
-- entry is indexed under its id; for tokens where no call registered one under another scene.
pub run-IsIndexed :
    (ordered : List String → List String) (kind : EntityKind) (cs : List Call)
    → any_moved ordered kind cs init ≡ false
    → IsIndexed kind (shelf_of kind (run ordered cs init))
run-IsIndexed ordered kind cs still =
    run_from-IsIndexed ordered kind cs init (init-IsIndexed kind) still
