-- ===== src/AvlTree/Clear.antt =====
-- include/wwos/avl.h: the loop of `clear`, which removes the root until there is none.
use wwos.Prelude.{
  ℕ, zero, suc, ◌+◌, ◌-◌, ◌^◌, ◌%◌, ◌<◌, ◌≡◌, refl, ap, some, [], ◌∷◌, length, length-append, arith,
}
use wwos.Avl.{Tree, nil, node, size}
use wwos.Avl.Shape.{to_list, IsMeasured}
use wwos.Avl.Remove.{remove_refines, data_at_root}
use wwos.AvlTree.{AvlTree, new, remove, clear_loop, clear}

module _ {A : Type 0} where
  pub length-to_list : (t : Tree A) → length (to_list t) ≡ size t
  length-to_list nil = refl
  length-to_list (node l x h r) =
      omega (arith, length-append (to_list l) (x ∷ to_list r), length-to_list l, length-to_list r)

  clear_loop_lem :
      (fuel : ℕ) (t : Tree A) (n : ℕ)
      → IsMeasured t
      → n ≡ size t % 2 ^ 64
      → size t < fuel
      → clear_loop fuel (record { root = t; m_size = n }) ≡ some new
  unfolding clear_loop remove
  clear_loop_lem zero t n m c f = absurd (omega arith)
  clear_loop_lem (suc fuel) nil n m c f = ap (λ k. some (record { root = nil; m_size = k })) c
  clear_loop_lem (suc fuel) (node l x h r) n m c f =
      let (t, e, s, s', m') = remove_refines [] (node l x h r) x (data_at_root l x h r) m in
      let counts : size (node l x h r) ≡ suc (size t) = omega (
        arith,
        length-to_list t,
        length-to_list l,
        length-to_list r,
        ap length s',
        length-append (to_list l) (to_list r),
      ) in
      rw e (clear_loop_lem fuel t ((n + (2 ^ 64 - 1)) % 2 ^ 64) m' (omega arith) (omega arith))

  -- In a tree whose heights and count are correct, `clear` ends, never stops the program, and leaves
  -- the empty tree with the count zero.
  clear_empties :
      (t : AvlTree A) → IsMeasured t.root → t.m_size ≡ size t.root % 2 ^ 64 → clear t ≡ some new
  unfolding clear
  clear_empties t m c = clear_loop_lem (suc (size t.root)) t.root t.m_size m c (omega arith)
