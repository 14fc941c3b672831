-- ===== src/Foundry/Registry/Linking.antt =====
-- foundry/registry.py: adding an alias to an entry and to the index.
use ai_dm.Prelude.{
  Bool-cases, inl, inr, true, false, ◌||◌, ◌≡◌, sym, ◌∙◌, ap, Option, none, some, List, [], ◌∷◌,
  String, arith, str_eq, eq_iff, if◌then◌else◌,
}
use mathlib.Core.Path.{subst}
use ai_dm.Prelude.Dict.{get, put, string_key, get-put, get-put_self}
use ai_dm.Prelude.Text.{normalise}
use ai_dm.Foundry.Registry.{
  link_all, Answer, value_error, EntityKind, RegistryEntry, AliasKey, same_key, same_key_iff,
  alias_key, Shelf, key_of, is_empty, is_taken, add_alias_locked, set_add, link,
}
use ai_dm.Foundry.Registry.Calls.{added}
use ai_dm.Foundry.Registry.Index.{
  has_alias, owns, IsSound, IsHeld, IsFull, IsIndexed, exists_in-set_add, put_cases,
}

-- Adding an alias, where the index lets it in.
module _ (kind : EntityKind) (sh : Shelf) (h : IsIndexed kind sh) (fid alias : String)
    (e : RegistryEntry) (at : get sh.entries fid ≡ some e) where
  abbrev pub renamed : RegistryEntry
  renamed = record e { aliases = set_add alias e.aliases }

  abbrev pub alias_at : AliasKey
  alias_at = key_of kind e.scene_id (normalise alias)

  owns_more :
      (key : AliasKey)
      → owns kind (some renamed) key ≡ (same_key alias_at key || owns kind (some e) key)
  owns_more key =
      exists_in-set_add (λ a. same_key (key_of kind e.scene_id (normalise a)) key) alias e.aliases

  has_more : (a : String) → has_alias renamed a ≡ (str_eq a alias || has_alias e a)
  has_more a = exists_in-set_add (str_eq a) alias e.aliases

  pub IsIndexed-blank :
      is_empty (normalise alias) ≡ true
      → IsIndexed kind (record sh { entries = put sh.entries fid renamed })
  IsIndexed-blank blank = (sound, full)
    where
      sound : IsSound kind (record sh { entries = put sh.entries fid renamed })
      sound key f found = elim (Bool-cases (str_eq fid f)) [
        | inl same ↦ ground (
          arith,
          get-put sh.entries fid f renamed,
          same,
          eq_iff fid f,
          at,
          h.0 key f found,
          owns_more key,
        )
        | inr other ↦ ground (arith, get-put sh.entries fid f renamed, other, h.0 key f found)
      ]

      held : IsHeld kind sh.index fid renamed
      held = (
        (h.1 fid e at).0,
        λ a has named.
            (h.1 fid e at).1 a
              (ground (arith, has, has_more a, named, blank, eq_iff a alias, ap normalise)) named,
      )

      full : IsFull kind (record sh { entries = put sh.entries fid renamed })
      full f x found = elim (put_cases sh.entries fid f renamed x found) [
        | inl hit ↦
            subst (λ g. IsHeld kind sh.index g x) hit.0
              (subst (IsHeld kind sh.index fid) hit.1 held)
        | inr miss ↦ h.1 f x miss.1
      ]

  pub IsIndexed-put :
      is_taken (get sh.index alias_at) fid ≡ false
      → IsIndexed kind
          (record { entries = put sh.entries fid renamed; index = put sh.index alias_at fid })
  IsIndexed-put free = (sound, full)
    where
      read :
          (key : AliasKey)
          → get (put sh.index alias_at fid) key
            ≡ (if same_key alias_at key then some fid else get sh.index key)
      read key = get-put sh.index alias_at key fid

      sound :
          IsSound kind
            (record { entries = put sh.entries fid renamed; index = put sh.index alias_at fid })
      sound key f found = elim (Bool-cases (same_key alias_at key)) [
        | inl s ↦ ground (
          arith,
          s,
          read key,
          found,
          get-put sh.entries fid f renamed,
          eq_iff fid f,
          owns_more key,
        )
        | inr n ↦ elim (Bool-cases (str_eq fid f)) [
          | inl same ↦ ground (
            arith,
            n,
            read key,
            found,
            get-put sh.entries fid f renamed,
            same,
            eq_iff fid f,
            at,
            h.0 key f,
            owns_more key,
          )
          | inr other ↦
              ground (arith, n, read key, found, get-put sh.entries fid f renamed, other, h.0 key f)
        ]
      ]

      held : IsHeld kind (put sh.index alias_at fid) fid renamed
      held = (
        (h.1 fid e at).0,
        λ a has named.
            elim (Bool-cases (same_key alias_at (key_of kind e.scene_id (normalise a)))) [
              | inl s ↦ ground (arith, s, read (key_of kind e.scene_id (normalise a)))
              | inr n ↦ ground (
                arith,
                n,
                read (key_of kind e.scene_id (normalise a)),
                (h.1 fid e at).1 a,
                named,
                has,
                has_more a,
                differs a n,
              )
            ],
      )
        where
          differs :
              (a : String)
              → same_key alias_at (key_of kind e.scene_id (normalise a)) ≡ false
              → str_eq a alias ≡ false
          differs a n = elim (Bool-cases (str_eq a alias)) [
            | inl same ↦
                let k : alias_at ≡ key_of kind e.scene_id (normalise a) =
                  ap (λ b. key_of kind e.scene_id (normalise b)) (sym ((eq_iff a alias).0 same)) in
                ground
                  (arith, n, (same_key_iff alias_at (key_of kind e.scene_id (normalise a))).1 k)
            | inr other ↦ other
          ]

      kept :
          (f : String) (x : RegistryEntry)
          → str_eq fid f ≡ false
          → get sh.entries f ≡ some x
          → IsHeld kind (put sh.index alias_at fid) f x
      kept f x other there = (
        (h.1 f x there).0,
        λ a has named.
            let key = key_of kind x.scene_id (normalise a) in
            let was : get sh.index key ≡ some f = (h.1 f x there).1 a has named in
            elim (Bool-cases (same_key alias_at key)) [
              | inl s ↦
                  let same : get sh.index alias_at ≡ some f =
                    ap (get sh.index) ((same_key_iff alias_at key).0 s) ∙ was in
                  ground (arith, same, free, other, (h.1 f x there).0, eq_iff fid f, eq_iff f fid)
              | inr n ↦ ground (arith, n, read key, was)
            ],
      )

      full :
          IsFull kind
            (record { entries = put sh.entries fid renamed; index = put sh.index alias_at fid })
      full f x found = elim (put_cases sh.entries fid f renamed x found) [
        | inl hit ↦
            subst (λ g. IsHeld kind (put sh.index alias_at fid) g x) hit.0
              (subst (IsHeld kind (put sh.index alias_at fid) fid) hit.1 held)
        | inr miss ↦ kept f x miss.0 miss.1
      ]

-- What holds of a result where there is one.
abbrev IfSome : (Shelf → Type 0) → Option Shelf → Type 0
IfSome P none = Unit
IfSome P (some after) = P after

-- The shelf is sound, with the given entry.
abbrev pub HasEntry : EntityKind → String → RegistryEntry → Shelf → Type 0
HasEntry kind fid e sh = IsIndexed kind sh × (get sh.entries fid ≡ some e)

link-HasEntry :
    (kind : EntityKind) (fid alias : String) (e : RegistryEntry) (sh : Shelf)
    → HasEntry kind fid e sh
    → IfSome
        (HasEntry kind fid (record e { aliases = set_add alias e.aliases }))
        (link kind fid e alias sh)
unfolding link add_alias_locked
link-HasEntry kind fid alias e sh h =
    let stays : get (put sh.entries fid (renamed kind sh h.0 fid alias e h.1)) fid
        ≡ some (renamed kind sh h.0 fid alias e h.1) =
      get-put_self sh.entries fid (renamed kind sh h.0 fid alias e h.1) in
    elim (Bool-cases (is_empty (normalise alias))) [
      | inl b ↦ rw b (IsIndexed-blank kind sh h.0 fid alias e h.1 b, stays)
      | inr n ↦
          rw n
            (elim (Bool-cases
              (is_taken (get sh.index (key_of kind e.scene_id (normalise alias))) fid)) [
                | inl t ↦ rw t tt
                | inr f ↦ rw f (IsIndexed-put kind sh h.0 fid alias e h.1 f, stays)
              ])
    ]

-- Each round of the loop keeps the index sound, also the one that fails.
pub link_all-IsIndexed :
    (kind : EntityKind) (fid : String) (e : RegistryEntry) (aliases : List String) (sh : Shelf)
    → HasEntry kind fid e sh
    → IsIndexed kind (link_all kind fid e aliases sh).0
unfolding link_all
link_all-IsIndexed kind fid e [] sh h = h.0
link_all-IsIndexed kind fid e (alias ∷ aliases) sh h =
    go (link kind fid e alias sh) (link-HasEntry kind fid alias e sh h)
      (link_all-IsIndexed kind fid (record e { aliases = set_add alias e.aliases }) aliases)
  where
    go :
        (o : Option Shelf)
        → IfSome (HasEntry kind fid (record e { aliases = set_add alias e.aliases })) o
        → ((after : Shelf)
            → HasEntry kind fid (record e { aliases = set_add alias e.aliases }) after
            → IsIndexed kind
                (link_all kind fid
                  (record e { aliases = set_add alias e.aliases })
                  aliases
                  after).0)
        → let out : Shelf × Answer RegistryEntry = elim o [
          | none ↦ (sh, value_error)
          | some after ↦
              link_all kind fid (record e { aliases = set_add alias e.aliases }) aliases after
        ] in
          IsIndexed kind out.0
    go none k rest = h.0
    go (some after) k rest = rest after k

pub link-IsIndexed :
    (kind : EntityKind) (fid alias : String) (e : RegistryEntry) (sh : Shelf)
    → HasEntry kind fid e sh
    → IsIndexed kind (added sh (link kind fid e alias sh)).0
link-IsIndexed kind fid alias e sh h =
    go (link kind fid e alias sh) (link-HasEntry kind fid alias e sh h)
  where
    go :
        (o : Option Shelf)
        → IfSome (HasEntry kind fid (record e { aliases = set_add alias e.aliases })) o
        → IsIndexed kind (added sh o).0
    go none k = h.0
    go (some after) k = k.0
