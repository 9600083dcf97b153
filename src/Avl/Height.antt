-- ===== src/Avl/Height.antt =====
-- include/wwos/avl.h: the height of a balanced tree, and where `remove` loses the balance.
use native.Mathlib.Nat.{pow-suc}
use wwos.Prelude.{ℕ, zero, suc, ◌+◌, ◌*◌, ◌^◌, ◌≤◌, ◌<◌, ◌≡◌, some, arith, List, ◌∷◌}
use wwos.Avl.{Tree, nil, node, above, size, rebalance, update_height, Side, right, remove}
use wwos.Avl.Shape.{IsMeasured, IsBalanced}

module _ {A : Type 0} where
  -- A balanced tree with correct heights that has `2 k` levels or more has at least `2 ^ k - 1` nodes.
  pow-le-size :
      (k : ℕ) (t : Tree A) → IsMeasured t → IsBalanced t → 2 * k ≤ above t → 2 ^ k ≤ size t + 1
  pow-le-size zero t m b h = omega arith
  pow-le-size (suc k) nil m b h = absurd (omega arith)
  pow-le-size (suc k) (node l x h r) m b p =
      rw pow-suc (
        omega (arith, pow-le-size k l m.1 b.2 (omega arith), pow-le-size k r m.2 b.3 (omega arith)))

  rebalance_double :
      (a1 : Tree A) (w : A) (i : ℕ) (a2 : Tree A) (y : A) (k : ℕ) (b1 : Tree A) (z : A) (j : ℕ)
      (b2 : Tree A) (x : A) (h : ℕ) (r : Tree A)
      → i ≤ j
      → above r < k
      → rebalance (node (node a1 w i a2) y k (node b1 z j b2)) x h r
        ≡ some (update_height (update_height (node a1 w i a2) y b1) z (update_height b2 x r))
  unfolding rebalance
  rebalance_double a1 w i a2 y k b1 z j b2 x h r p q = ground arith

  update_height-not-IsBalanced :
      (a : Tree A) (y : A) (b : Tree A) (z : A) (c : Tree A)
      → above b + 1 < above a
      → ¬ IsBalanced (update_height (update_height a y b) z c)
  unfolding update_height
  update_height-not-IsBalanced a y b z c h w = omega arith

  -- In a balanced tree whose left subtree is one level higher than its right one, and in which the left
  -- subtree's own subtrees are equally high and the nearer one leans to the right, a removal that
  -- lowers the right subtree leaves a tree that is out of balance.
  pub remove_unbalances :
      (a : Tree A) (y : A) (k : ℕ) (b1 : Tree A) (z : A) (j : ℕ) (b2 : Tree A) (x : A) (h : ℕ)
      (r r' : Tree A) (p : List Side)
      → IsMeasured (node (node a y k (node b1 z j b2)) x h r)
      → IsBalanced (node (node a y k (node b1 z j b2)) x h r)
      → above a ≡ suc j
      → above b1 < above b2
      → suc k ≡ above r + 1
      → remove p r ≡ some r'
      → above r' < above r
      → (t : Tree A) × (remove (right ∷ p) (node (node a y k (node b1 z j b2)) x h r) ≡ some t)
        × ¬ IsBalanced t
  unfolding remove
  remove_unbalances nil y k b1 z j b2 x h r r' p m b e f g i q = absurd (omega arith)
  remove_unbalances (node a1 w i a2) y k b1 z j b2 x h r r' p m b e f g d q = (
    update_height (update_height (node a1 w i a2) y b1) z (update_height b2 x r'),
    rw d (rebalance_double a1 w i a2 y k b1 z j b2 x h r' (omega arith) (omega arith)),
    update_height-not-IsBalanced (node a1 w i a2) y b1 z (update_height b2 x r') (omega arith),
  )
