-- ===== src/Map/Laws.antt =====
-- include/wwos/map.h: a map behaves as a partial function from keys to values.
use wwos.Prelude.{
  ℕ, ◌+◌, ◌-◌, ◌^◌, ◌%◌, ◌≡◌, ◌≢◌, refl, ◌∙◌, ap, subst, List, [], ◌∷◌, ◌++◌, ◌==◌, if◌then◌else◌,
  All, Option, none, some, arith, Bool, true, false, Option-cases, inl, inr, length, length-append,
}
use wwos.Avl
use wwos.Avl.{Tree, Side, data_at}
use wwos.Avl.Shape.{to_list, IsMeasured}
use wwos.Avl.Sorted.{insert_sorted, lookup}
use wwos.Avl.Insert.{insert_refines}
use wwos.Avl.Search.{find_exact_sound, find_exact_complete}
use wwos.Avl.Remove.{before, after, to_list-split, remove_refines, set_data_lem}
use wwos.AvlTree
use wwos.AvlTree.{AvlTree}
use wwos.Map
use wwos.Map.{MapKv, key_of, probe, find_key}
use wwos.Map.Strict.{
  IsStrict, IsStrict-IsSorted, insert_sorted-IsStrict, IsStrict-remove, lookup-absent,
  lookup-insert_sorted, lookup-middle, lookup_remove, lookup_replace, IsStrict-replace,
}

length-insert_sorted :
    {A : Type 0} (key : A → ℕ) (x : A) (ys : List A)
    → length (insert_sorted key x ys) ≡ length ys + 1
length-insert_sorted key x [] = refl
length-insert_sorted key x (y ∷ ys) = ground (arith, length-insert_sorted key x ys)

module _ {V : Type 0} where
  -- The nodes are in the order of their keys, no key occurs twice, heights and count are right.
  pub record IsValid (m : AvlTree (MapKv V)) : Type 0 where
    pub strict : IsStrict key_of (to_list m.root)
    pub measured : IsMeasured m.root
    pub counted : m.m_size ≡ length (to_list m.root) % 2 ^ 64

  abbrev pub value_of : Option (MapKv V) → Option V
  value_of none = none
  value_of (some kv) = some kv.value

  -- The map as a partial function.
  abbrev pub contents : ℕ → AvlTree (MapKv V) → Option V
  contents k m = value_of (lookup key_of k (to_list m.root))

  abbrev pub is_some : Option V → Bool
  is_some none = false
  is_some (some w) = true

module _ {V : Type 0} (v : V) where
  -- What the search for a key finds.
  data Found (k : ℕ) (m : AvlTree (MapKv V)) : Type 0 where
    absent : find_key v k m ≡ none → All (λ (kv : MapKv V). kv.key ≢ k) (to_list m.root) → Found k m
    present :
        (p : List Side) (kv : MapKv V)
        → find_key v k m ≡ some p
        → data_at p m.root ≡ some kv
        → kv.key ≡ k
        → Found k m

  found : (k : ℕ) (m : AvlTree (MapKv V)) → IsValid m → Found k m
  unfolding find_key
  found k m s = elim (Option-cases (Avl.find_exact key_of (probe v k) m.root)) [
    | inl e ↦ absent e (
        find_exact_complete key_of (probe v k) m.root
          (IsStrict-IsSorted key_of (to_list m.root) s.strict) e)
    | inr (p, e) ↦
        let (kv, f, g) = find_exact_sound key_of (probe v k) m.root p e in present p kv e f g
  ]

  contents-absent :
      (k : ℕ) (m : AvlTree (MapKv V))
      → All (λ (kv : MapKv V). kv.key ≢ k) (to_list m.root)
      → contents k m ≡ none
  contents-absent k m a = rw (lookup-absent key_of k (to_list m.root) a)

  contents-present :
      (k : ℕ) (m : AvlTree (MapKv V)) (p : List Side) (kv : MapKv V)
      → IsValid m
      → data_at p m.root ≡ some kv
      → kv.key ≡ k
      → contents k m ≡ some kv.value
  contents-present k m p kv s f g =
      let e = to_list-split p m.root kv f in
      rw (← g, e)
        (ap value_of (
          lookup-middle key_of (before p m.root) kv (after p m.root)
            (subst (IsStrict key_of) e s.strict)))

  -- In a valid map `get` returns the value that the map holds for a key, and stops the program where
  -- it holds none; `contains` tells the two cases apart.
  pub get-eq-contents :
      (k : ℕ) (m : AvlTree (MapKv V))
      → IsValid m
      → (Map.get v k m ≡ contents k m) × (Map.contains v k m ≡ is_some (contents k m))
  unfolding Map.get Map.contains
  get-eq-contents k m s = elim (found k m s) [
    | absent e a ↦ rw (contents-absent k m a) (rw (e, Map.get, Map.contains), rw (e, Map.contains))
    | present p kv e f g ↦
        rw (contents-present k m p kv s f g)
          (rw (e, f, Map.get, Map.contains), rw (e, Map.contains))
  ]

  -- `insert` stops the program at a key that a valid map holds.
  insert_duplicate :
      (k : ℕ) (value : V) (m : AvlTree (MapKv V)) {w : V}
      → IsValid m
      → contents k m ≡ some w
      → Map.insert v k value m ≡ none
  unfolding Map.insert
  insert_duplicate k value m s e = rw ((get-eq-contents k m s).1, e)

  -- At a key that a valid map does not hold, `insert` sets the value of that key, changes no other,
  -- and keeps the map valid.
  pub insert_refines_update :
      (k : ℕ) (value : V) (m : AvlTree (MapKv V))
      → IsValid m
      → contents k m ≡ none
      → (m' : AvlTree (MapKv V)) × (Map.insert v k value m ≡ some m')
        × IsValid m'
        × ((j : ℕ) → contents j m' ≡ (if k == j then some value else contents j m))
  unfolding Map.insert AvlTree.insert
  insert_refines_update k value m s n = elim (found k m s) [
    | present p kv e f g ↦ let c = contents-present k m p kv s f g in cc
    | absent e a ↦
        let kv : MapKv V = record { key = k; value = value } in
        let sorted = IsStrict-IsSorted key_of (to_list m.root) s.strict in
        let (r, i, o, w, h) = insert_refines key_of kv m.root sorted s.measured in
        (
          record { root = r; m_size = (m.m_size + 1) % 2 ^ 64 },
          rw ((get-eq-contents k m s).1, n, i),
          record {
            strict = rw o (insert_sorted-IsStrict key_of kv (to_list m.root) s.strict a);
            measured = h;
            counted =
                rw (o, s.counted, length-insert_sorted key_of kv (to_list m.root)) (omega arith);
          },
          λ j.
              rw (o, lookup-insert_sorted key_of j kv (to_list m.root) a)
                (value_of-if (k == j) kv (lookup key_of j (to_list m.root))),
        )
  ]
    where
      value_of-if :
          (b : Bool) (kv : MapKv V) (o : Option (MapKv V))
          → value_of (if b then some kv else o) ≡ (if b then some kv.value else value_of o)
      value_of-if true kv o = refl
      value_of-if false kv o = refl

  -- `remove` and `update` stop the program at a key that a valid map does not hold.
  missing_stops :
      (k : ℕ) (value : V) (m : AvlTree (MapKv V))
      → IsValid m
      → contents k m ≡ none
      → (Map.remove v k m ≡ none) × (Map.update v k value m ≡ none)
  unfolding Map.remove Map.update
  missing_stops k value m s e =
      let absent = (get-eq-contents k m s).1 in (rw (absent, e), rw (absent, e))

  -- `remove` takes a key that a valid map holds out of it, changes no other, and keeps the map valid.
  pub remove_refines_update :
      (k : ℕ) (m : AvlTree (MapKv V)) {w : V}
      → IsValid m
      → contents k m ≡ some w
      → (m' : AvlTree (MapKv V)) × (Map.remove v k m ≡ some m')
        × IsValid m'
        × ((j : ℕ) → contents j m' ≡ (if k == j then none else contents j m))
  unfolding Map.remove AvlTree.remove
  remove_refines_update k m s n = elim (found k m s) [
    | absent e a ↦ let c = contents-absent k m a in cc
    | present p kv e f g ↦
        let (r, i, o, u, h) = remove_refines p m.root kv f s.measured in
        let strict = subst (IsStrict key_of) o s.strict in
        (
          record { root = r; m_size = (m.m_size + (2 ^ 64 - 1)) % 2 ^ 64 },
          rw ((get-eq-contents k m s).1, n, e, i),
          record {
            strict = rw u (IsStrict-remove key_of (before p m.root) kv (after p m.root) strict);
            measured = h;
            counted = omega (
              arith,
              s.counted,
              ap (λ xs. length xs) o,
              ap (λ xs. length xs) u,
              length-append (before p m.root) (kv ∷ after p m.root),
              length-append (before p m.root) (after p m.root),
            );
          },
          λ j.
              let rest = lookup key_of j (before p m.root ++ (kv ∷ after p m.root)) in
              rw (u, o)
                (ap value_of (lookup_remove key_of j (before p m.root) kv (after p m.root) strict)
                  ∙ value_of-if (kv.key == j) rest
                  ∙ ap (λ q. if q == j then none else value_of rest) g),
        )
  ]
    where
      value_of-if :
          (b : Bool) (o : Option (MapKv V))
          → value_of (if b then none else o) ≡ (if b then none else value_of o)
      value_of-if true o = refl
      value_of-if false o = refl

  -- `update` sets the value of a key that a valid map holds, changes no other, and keeps the map valid.
  pub update_refines_update :
      (k : ℕ) (value : V) (m : AvlTree (MapKv V)) {w : V}
      → IsValid m
      → contents k m ≡ some w
      → (m' : AvlTree (MapKv V)) × (Map.update v k value m ≡ some m')
        × IsValid m'
        × ((j : ℕ) → contents j m' ≡ (if k == j then some value else contents j m))
  unfolding Map.update
  update_refines_update k value m s n = elim (found k m s) [
    | absent e a ↦ let c = contents-absent k m a in cc
    | present p kv e f g ↦
        let o = to_list-split p m.root kv f in
        let kv' : MapKv V = record kv { value = value } in
        let (u, h) = set_data_lem p kv' m.root kv f s.measured in
        let strict = subst (IsStrict key_of) o s.strict in
        (
          record m { root = Avl.set_data p kv' m.root },
          rw ((get-eq-contents k m s).1, n, e, f),
          record {
            strict =
                rw u
                  (IsStrict-replace key_of (before p m.root) kv kv' (after p m.root) refl strict);
            measured = h;
            counted = omega (
              arith,
              s.counted,
              ap (λ xs. length xs) o,
              ap (λ xs. length xs) u,
              length-append (before p m.root) (kv ∷ after p m.root),
              length-append (before p m.root) (kv' ∷ after p m.root),
            );
          },
          λ j.
              let rest = lookup key_of j (before p m.root ++ (kv ∷ after p m.root)) in
              rw (u, o)
                (ap value_of
                    (lookup_replace key_of j (before p m.root) kv kv' (after p m.root) refl strict)
                  ∙ value_of-if (kv.key == j) kv' rest
                  ∙ ap (λ q. if q == j then some value else value_of rest) g),
        )
  ]
    where
      value_of-if :
          (b : Bool) (kv' : MapKv V) (o : Option (MapKv V))
          → value_of (if b then some kv' else o) ≡ (if b then some kv'.value else value_of o)
      value_of-if true kv' o = refl
      value_of-if false kv' o = refl
