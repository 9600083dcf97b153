-- ===== src/Map/Tests.antt =====
-- include/wwos/map.h: the map on small inputs.
use wwos.Prelude.{ℕ, ◌≡◌, refl, none, some, ◌==◌, if◌then◌else◌, arith}
use wwos.Avl.{nil, node, leaf}
use wwos.AvlTree.{AvlTree}
use wwos.Map
use wwos.Map.{MapKv}
use wwos.Map.Laws.{IsValid, contents, insert_refines_update, remove_refines_update}

abbrev kv : ℕ → ℕ → MapKv ℕ
kv k v = record { key = k; value = v }

abbrev two_items : AvlTree (MapKv ℕ)
two_items = record { root = node nil (kv 3 30) 1 (leaf (kv 5 50)); m_size = 2 }

two_items-IsValid : IsValid two_items
two_items-IsValid = omega arith

insert_refines_update_example :
    (m : AvlTree (MapKv ℕ)) × (Map.insert 0 4 40 two_items ≡ some m)
    × IsValid m
    × ((j : ℕ) → contents j m ≡ (if 4 == j then some 40 else contents j two_items))
insert_refines_update_example = insert_refines_update 0 4 40 two_items two_items-IsValid refl

remove_refines_update_example :
    (m : AvlTree (MapKv ℕ)) × (Map.remove 0 3 two_items ≡ some m)
    × IsValid m
    × ((j : ℕ) → contents j m ≡ (if 3 == j then none else contents j two_items))
remove_refines_update_example = remove_refines_update 0 3 two_items two_items-IsValid refl
