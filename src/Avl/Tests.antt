-- ===== src/Avl/Tests.antt =====
-- include/wwos/avl.h: the search tree on small inputs.
use wwos.Prelude.{ℕ, ◌≤◌, ◌≡◌, refl, [], ◌∷◌, ◌++◌, some, arith}
use wwos.Avl.{
  Tree, nil, node, leaf, right, insert, remove, data_at, above, find, attach, modify, unlink,
  rebalance, update_height, rotate_clockwise, rotate_counterclockwise, leans_left, leans_right,
}
use wwos.Avl.Shape.{to_list, IsMeasured, IsBalanced}
use wwos.Avl.Sorted.{IsSorted}
use wwos.Avl.Insert.{insert_refines, insert-IsBalanced}
use wwos.Avl.Remove.{before, after, remove_refines}
use wwos.Avl.Height.{remove_unbalances}

abbrev itself : ℕ → ℕ
itself x = x

abbrev three : Tree ℕ
three = node (leaf 1) 2 1 (leaf 3)

-- Equally high grandchildren on the left, of which the nearer leans to the right.
abbrev tilted : Tree ℕ
tilted = node (node (node (leaf 1) 2 1 nil) 3 2 (node nil 4 1 (leaf 5))) 6 3 (node nil 7 1 (leaf 8))

insert-chain : insert itself 3 (node nil 1 1 (leaf 2)) ≡ some (node (leaf 1) 2 1 (leaf 3))
unfolding insert find attach modify rebalance update_height rotate_counterclockwise rotate_clockwise
    leans_left leans_right
insert-chain = refl

insert_refines_example :
    (t : Tree ℕ) × (insert itself 2 three ≡ some t)
    × (to_list t ≡ 1 ∷ 2 ∷ 2 ∷ 3 ∷ [])
    × IsSorted itself (to_list t)
    × IsMeasured t
insert_refines_example = insert_refines itself 2 three (omega arith) (omega arith)

insert-IsBalanced_example :
    (t : Tree ℕ) × (insert itself 2 three ≡ some t)
    × IsMeasured t
    × IsBalanced t
    × (2 ≤ above t)
    × (above t ≤ 3)
insert-IsBalanced_example = insert-IsBalanced itself 2 three (omega arith) (omega arith)

remove_refines_example :
    (t : Tree ℕ) × (remove [] three ≡ some t)
    × (to_list three ≡ before [] three ++ (2 ∷ after [] three))
    × (to_list t ≡ 1 ∷ 3 ∷ [])
    × IsMeasured t
unfolding data_at
remove_refines_example = remove_refines [] three 2 refl (omega arith)

remove_unbalances_example :
    (t : Tree ℕ) × (remove (right ∷ right ∷ []) tilted ≡ some t) × ¬ IsBalanced t
unfolding remove modify unlink rebalance update_height
remove_unbalances_example =
    remove_unbalances (node (leaf 1) 2 1 nil) 3 2 nil 4 1 (leaf 5) 6 3 (node nil 7 1 (leaf 8))
      (leaf 7) (right ∷ []) (omega arith) (omega arith) refl (omega arith) refl refl (omega arith)
