-- ===== src/Foundry/Registry/Index.antt =====
-- foundry/registry.py: what the alias index and the entries of one kind say of each other.
use ai_dm.Prelude.{
  Bool, Bool-cases, inl, inr, true, false, ◌||◌, ◌≡◌, refl, sym, ◌∙◌, ap, ◌⊎◌, Option, none, some,
  List, [], ◌∷◌, String, arith, str_eq, eq_iff, exists_in,
}
use mathlib.Core.Path.{subst}
use ai_dm.Prelude.Dict.{Dict, get, put, string_key, get-put}
use ai_dm.Prelude.Text.{normalise}
use ai_dm.Foundry.Registry.{
  EntityKind, RegistryEntry, AliasKey, same_key, alias_key, Shelf, key_of, is_empty, set_add,
}

abbrev pub has_alias : RegistryEntry → String → Bool
has_alias e alias = exists_in (str_eq alias) e.aliases

-- The entry has an alias that is indexed under the key.
abbrev pub owns : EntityKind → Option RegistryEntry → AliasKey → Bool
owns kind none key = false
owns kind (some e) key =
    exists_in (λ a. same_key (key_of kind e.scene_id (normalise a)) key) e.aliases

-- Each key of the index leads to a registered entry that has the alias.
abbrev pub IsSound : EntityKind → Shelf → Type 0
IsSound kind sh =
    (key : AliasKey) (fid : String)
    → get sh.index key ≡ some fid
    → owns kind (get sh.entries fid) key ≡ true

-- The id is not empty, and each alias of the entry is indexed under it.
abbrev pub IsHeld : EntityKind → Dict AliasKey String → String → RegistryEntry → Type 0
IsHeld kind index fid e =
    (is_empty fid ≡ false)
    × ((alias : String)
        → has_alias e alias ≡ true
        → is_empty (normalise alias) ≡ false
        → get index (key_of kind e.scene_id (normalise alias)) ≡ some fid)

abbrev pub IsFull : EntityKind → Shelf → Type 0
IsFull kind sh =
    (fid : String) (e : RegistryEntry) → get sh.entries fid ≡ some e → IsHeld kind sh.index fid e

abbrev pub IsIndexed : EntityKind → Shelf → Type 0
IsIndexed kind sh = IsSound kind sh × IsFull kind sh

pub exists_in-at :
    (p : String → Bool) (a : String) (names : List String)
    → exists_in (str_eq a) names ≡ true
    → p a ≡ true
    → exists_in p names ≡ true
exists_in-at p a (b ∷ names) found h = elim (Bool-cases (str_eq a b)) [
  | inl e ↦ ground (arith, ap p ((eq_iff a b).0 e), h)
  | inr e ↦ ground (arith, e, found, exists_in-at p a names (ground (arith, e, found)) h)
]
exists_in-at p a [] found h = cc

pub exists_in-set_add :
    (p : String → Bool) (a : String) (names : List String)
    → exists_in p (set_add a names) ≡ (p a || exists_in p names)
exists_in-set_add p a names = elim (Bool-cases (exists_in (str_eq a) names)) [
  | inl e ↦ elim (Bool-cases (p a)) [
    | inl h ↦ ground (arith, e, h, exists_in-at p a names e h)
    | inr h ↦ ground (arith, e, h)
  ]
  | inr e ↦ ground (arith, e)
]

pub exists_in-cong :
    (p q : String → Bool) (names : List String)
    → ((a : String) → p a ≡ q a)
    → exists_in p names ≡ exists_in q names
exists_in-cong p q [] same = refl
exists_in-cong p q (a ∷ names) same = cc (same a, exists_in-cong p q names same)

-- What a dictionary has after a write is what was written, or what it had.
pub put_cases :
    (entries : Dict String RegistryEntry) (fid f : String) (d x : RegistryEntry)
    → get (put entries fid d) f ≡ some x
    → ((fid ≡ f) × (d ≡ x)) ⊎ ((str_eq fid f ≡ false) × (get entries f ≡ some x))
put_cases entries fid f d x found = elim (Bool-cases (str_eq fid f)) [
  | inl same ↦
      let hit : some d ≡ some x = ground (arith, found, get-put entries fid f d, same) in
      inl ((eq_iff fid f).0 same, cc hit)
  | inr other ↦ inr (other, ground (arith, found, get-put entries fid f d, other))
]

module _ (kind : EntityKind) (sh : Shelf) (h : IsIndexed kind sh) where
  -- A new entry has no alias yet.
  pub IsIndexed-new :
      (fid : String) (e : RegistryEntry)
      → is_empty fid ≡ false
      → get sh.entries fid ≡ none
      → e.aliases ≡ []
      → IsIndexed kind (record sh { entries = put sh.entries fid e })
  IsIndexed-new fid e named absent bare = (
    λ key f found.
        ground (arith, h.0 key f found, get-put sh.entries fid f e, absent, eq_iff fid f),
    λ f d found. elim (Bool-cases (str_eq fid f)) [
      | inl same ↦ (
        ground (arith, named, same, eq_iff fid f),
        λ alias has. absurd (bare_has f d alias same found has),
      )
      | inr other ↦ h.1 f d (ground (arith, found, get-put sh.entries fid f e, other))
    ],
  )
    where
      bare_has :
          (f : String) (d : RegistryEntry) (alias : String)
          → str_eq fid f ≡ true
          → get (put sh.entries fid e) f ≡ some d
          → has_alias d alias ≡ true
          → ⊥
      bare_has f d alias same found has =
          let d_is : some e ≡ some d = ground (arith, found, get-put sh.entries fid f e, same) in
          ground (arith, d_is, bare, has)

  -- The name of an entry may change, and its scene where the keys do not depend on it.
  pub IsIndexed-update :
      (fid : String) (e d : RegistryEntry)
      → get sh.entries fid ≡ some e
      → d.aliases ≡ e.aliases
      → ((norm : String) → key_of kind d.scene_id norm ≡ key_of kind e.scene_id norm)
      → IsIndexed kind (record sh { entries = put sh.entries fid d })
  IsIndexed-update fid e d at same_aliases same_keys = (sound, full)
    where
      same_owns : (key : AliasKey) → owns kind (some d) key ≡ owns kind (some e) key
      same_owns key =
          exists_in-cong _ _ d.aliases (λ a. ap (λ k. same_key k key) (same_keys (normalise a)))
          ∙ ap (exists_in (λ a. same_key (key_of kind e.scene_id (normalise a)) key)) same_aliases

      sound : IsSound kind (record sh { entries = put sh.entries fid d })
      sound key f found = elim (Bool-cases (str_eq fid f)) [
        | inl same ↦ ground (
          arith,
          get-put sh.entries fid f d,
          same,
          eq_iff fid f,
          at,
          h.0 key f found,
          same_owns key,
        )
        | inr other ↦ ground (arith, get-put sh.entries fid f d, other, h.0 key f found)
      ]

      held : IsHeld kind sh.index fid d
      held = (
        (h.1 fid e at).0,
        λ alias has named.
            ap (get sh.index) (same_keys (normalise alias))
            ∙ (h.1 fid e at).1 alias (sym (ap (exists_in (str_eq alias)) same_aliases) ∙ has) named,
      )

      full : IsFull kind (record sh { entries = put sh.entries fid d })
      full f x found = elim (put_cases sh.entries fid f d x found) [
        | inl hit ↦
            subst (λ g. IsHeld kind sh.index g x) hit.0
              (subst (IsHeld kind sh.index fid) hit.1 held)
        | inr miss ↦ h.1 f x miss.1
      ]
