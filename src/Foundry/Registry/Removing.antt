-- ===== src/Foundry/Registry/Removing.antt =====
-- foundry/registry.py: taking an entry and its aliases away.
use ai_dm.Prelude.{
  Bool, Bool-cases, inl, inr, true, false, ◌≡◌, refl, sym, ◌∙◌, ap, Option, none, some, List, [],
  ◌∷◌, String, arith, str_eq, eq_iff, if◌then◌else◌, exists_in,
}
use ai_dm.Prelude.Dict.{Dict, get, pop, string_key, get-pop}
use ai_dm.Prelude.Text.{normalise}
use ai_dm.Foundry.Registry.{
  EntityKind, scene, actor, token, RegistryEntry, AliasKey, same_key, same_key_iff, alias_key,
  Shelf, key_of, is_empty, remove_alias_locked,
}
use ai_dm.Foundry.Registry.Calls.{remove_all, unregister_on}
use ai_dm.Foundry.Registry.Index.{IsSound, IsHeld, IsFull, IsIndexed}

-- The keys of the aliases.
abbrev covers : EntityKind → Option String → List String → AliasKey → Bool
covers kind scene_id aliases key =
    exists_in (λ a. same_key (key_of kind scene_id (normalise a)) key) aliases

-- After the loop exactly the keys of the aliases are gone.
get-remove_all :
    (kind : EntityKind) (scene_id : Option String) (aliases : List String)
    (index : Dict AliasKey String) (key : AliasKey)
    → get (remove_all kind scene_id aliases index) key
      ≡ (if covers kind scene_id aliases key then none else get index key)
unfolding remove_all remove_alias_locked
get-remove_all kind scene_id [] index key = refl
get-remove_all kind scene_id (a ∷ aliases) index key = ground (
  arith,
  get-pop index (key_of kind scene_id (normalise a)) key,
  get-remove_all kind scene_id aliases (pop index (key_of kind scene_id (normalise a))) key,
)

covered_by :
    (kind : EntityKind) (scene_id : Option String) (aliases : List String) (key : AliasKey)
    → covers kind scene_id aliases key ≡ true
    → (a : String) × ((exists_in (str_eq a) aliases ≡ true)
        × (key_of kind scene_id (normalise a) ≡ key))
covered_by kind scene_id [] key h = cc
covered_by kind scene_id (a ∷ aliases) key h =
    elim (Bool-cases (same_key (key_of kind scene_id (normalise a)) key)) [
      | inl s ↦ (
        a,
        (ground (arith, eq_iff a a), (same_key_iff (key_of kind scene_id (normalise a)) key).0 s),
      )
      | inr n ↦
          let rest = covered_by kind scene_id aliases key (ground (arith, h, n)) in
          (rest.0, (ground (arith, rest.1.0), rest.1.1))
    ]

key_of-norm :
    (kind : EntityKind) (s : Option String) (norm : String) → (key_of kind s norm).1 ≡ norm
key_of-norm scene s norm = refl
key_of-norm actor s norm = refl
key_of-norm token s norm = refl

module _ (kind : EntityKind) (sh : Shelf) (h : IsIndexed kind sh) (fid : String) where
  -- Removing an entry with its aliases leaves the rest as it was.
  pub unregister_on-IsIndexed :
      (o : Option RegistryEntry)
      → get sh.entries fid ≡ o
      → IsIndexed kind (unregister_on kind fid sh o)
  unfolding unregister_on
  unregister_on-IsIndexed none at = h
  unregister_on-IsIndexed (some e) at = (sound, full)
    where
      after : Shelf
      after = record {
        entries = pop sh.entries fid;
        index = remove_all kind e.scene_id e.aliases sh.index;
      }

      sound : IsSound kind (record {
        entries = pop sh.entries fid;
        index = remove_all kind e.scene_id e.aliases sh.index;
      })
      sound key f found = elim (Bool-cases (covers kind e.scene_id e.aliases key)) [
        | inl s ↦ ground (arith, s, found, get-remove_all kind e.scene_id e.aliases sh.index key)
        | inr n ↦ ground (
          arith,
          n,
          found,
          get-remove_all kind e.scene_id e.aliases sh.index key,
          h.0 key f,
          at,
          eq_iff fid f,
          get-pop sh.entries fid f,
        )
      ]

      apart :
          (f a : String) (t : Option String)
          → str_eq fid f ≡ false
          → is_empty (normalise a) ≡ false
          → get sh.index (key_of kind t (normalise a)) ≡ some f
          → covers kind e.scene_id e.aliases (key_of kind t (normalise a)) ≡ false
      apart f a t other named was =
          elim (Bool-cases (covers kind e.scene_id e.aliases (key_of kind t (normalise a)))) [
            | inr n ↦ n
            | inl s ↦
                let b = covered_by kind e.scene_id e.aliases (key_of kind t (normalise a)) s in
                let norms : normalise b.0 ≡ normalise a =
                  sym (key_of-norm kind e.scene_id (normalise b.0))
                  ∙ ap (λ (k : AliasKey). k.1) b.1.1
                  ∙ key_of-norm kind t (normalise a) in
                let mine : some fid ≡ some f =
                  sym ((h.1 fid e at).1 b.0 b.1.0 (ap is_empty norms ∙ named))
                  ∙ ap (get sh.index) b.1.1
                  ∙ was in
                ground (arith, mine, other, eq_iff fid f)
          ]

      full : IsFull kind (record {
        entries = pop sh.entries fid;
        index = remove_all kind e.scene_id e.aliases sh.index;
      })
      full f x found =
          let other : str_eq fid f ≡ false = ground (arith, found, get-pop sh.entries fid f) in
          let held : IsHeld kind sh.index f x =
            h.1 f x (ground (arith, found, other, get-pop sh.entries fid f)) in
          (
            held.0,
            λ a has named.
                get-remove_all kind e.scene_id e.aliases sh.index
                  (key_of kind x.scene_id (normalise a))
                ∙ ap (λ b. if b then none else get sh.index (key_of kind x.scene_id (normalise a)))
                    (apart f a x.scene_id other named (held.1 a has named))
                ∙ held.1 a has named,
          )
