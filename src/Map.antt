-- ===== src/Map.antt =====
-- include/wwos/map.h: the map over the search tree. The keys of the program's maps are unsigned
-- numbers and addresses, compared as numbers.
use wwos.Prelude.{
  ℕ, ◌+◌, List, [], ◌∷◌, map, Bool, true, false, Option, none, some, ◌>>=◌, if◌then◌else◌,
}
mod Strict
pub mod Laws
mod Tests
use wwos.Avl
use wwos.Avl.{Side}
use wwos.AvlTree
use wwos.AvlTree.{AvlTree}

pub record MapKv (V : Type 0) : Type 0 where
  pub key : ℕ
  pub value : V

module _ {V : Type 0} where
  -- What `operator<` compares.
  abbrev pub key_of : MapKv V → ℕ
  key_of kv = kv.key

  -- `{key, V()}`, a node to search for.
  abbrev pub probe : V → ℕ → MapKv V
  probe v k = record { key = k; value = v }

-- `V()`, the value of a probe, which no comparison reads, is the section's `v`.
module _ {V : Type 0} (v : V) where
  pub find_key : ℕ → AvlTree (MapKv V) → Option (List Side)
  find_key k m = Avl.find_exact key_of (probe v k) m.root

  pub contains : ℕ → AvlTree (MapKv V) → Bool
  unfolding find_key
  contains k m = elim (find_key k m) [ none ↦ false | some p ↦ true ]

  -- `none` in what follows: a `wwassert` fails.
  pub insert : ℕ → V → AvlTree (MapKv V) → Option (AvlTree (MapKv V))
  insert k value m =
      if contains k m then none else AvlTree.insert key_of (record { key = k; value = value }) m

  pub get : ℕ → AvlTree (MapKv V) → Option V
  get k m =
      if contains k m
      then find_key k m >>= (λ p. Avl.data_at p m.root >>= (λ kv. some kv.value))
      else none

  pub update : ℕ → V → AvlTree (MapKv V) → Option (AvlTree (MapKv V))
  update k value m =
      if contains k m
      then find_key k m >>= (λ p.
        Avl.data_at p m.root
        >>= (λ kv. some (record m { root = Avl.set_data p (record kv { value = value }) m.root })))
      else none

  pub remove : ℕ → AvlTree (MapKv V) → Option (AvlTree (MapKv V))
  remove k m = if contains k m then AvlTree.remove (find_key k m) m else none

  -- The loop of the copy constructor and of `operator=`.
  pub insert_all : List (ℕ × V) → AvlTree (MapKv V) → Option (AvlTree (MapKv V))
  insert_all [] m = some m
  insert_all ((k, value) ∷ items) m = insert k value m >>= insert_all items

module _ {V : Type 0} where
  pub items : AvlTree (MapKv V) → Option (List (ℕ × V))
  items m = Avl.items m.root >>= (λ kvs. some (map (λ (kv : MapKv V). (kv.key, kv.value)) kvs))
