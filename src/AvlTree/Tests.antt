-- ===== src/AvlTree/Tests.antt =====
-- include/wwos/avl.h: the tree with three nodes, emptied.
use wwos.Prelude.{ℕ}
use wwos.Avl.{node, leaf}
use wwos.AvlTree.{AvlTree}

abbrev three_nodes : AvlTree ℕ
three_nodes = record { root = node (leaf 1) 2 1 (leaf 3); m_size = 3 }
