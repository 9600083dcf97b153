-- ===== src/Avl.antt =====
-- include/wwos/avl.h: the balanced search tree below the maps, the scheduler and the clocks.
-- A tree owns its nodes, so a subtree is a value and a parent pointer is the way back out of a
-- recursion. A pointer to a node of the tree is the list of turns that lead from the root to it.
-- `operator<` compares one number of the data in every use (a key, a time, a virtual runtime):
-- it is the argument `key`. An `int` height is -1 for a null pointer; `above` is that plus one.
pub mod Shape
pub mod Balance
pub mod Sorted
pub mod Insert
pub mod Remove
pub mod Search
pub mod Height
pub mod Find
mod Tests
use wwos.Prelude.{
  ℕ, zero, suc, ◌+◌, ◌<◌, List, [], ◌∷◌, Bool, true, false, not, ◌&&◌, ◌||◌, Option, none, some,
  ltb, leb, if◌then◌else◌, ◌>>=◌, ◌++◌,
}

-- `avl_node`; `nil` is the null pointer.
pub data Tree {ℓ} (A : Type ℓ) : Type ℓ where
  nil : Tree A
  node : Tree A → A → ℕ → Tree A → Tree A

pub data Side : Type 0 where
  left right : Side

module _ {ℓ} {A : Type ℓ} where
  -- The height that a node records, plus one.
  abbrev pub above : Tree A → ℕ
  above nil = 0
  above (node l x h r) = suc h

  abbrev pub is_null : Tree A → Bool
  is_null nil = true
  is_null (node l x h r) = false

  -- `new avl_node<T>{data}`
  abbrev pub leaf : A → Tree A
  leaf x = node nil x 0 nil

  -- A node whose height has just been set from its children's.
  pub update_height : Tree A → A → Tree A → Tree A
  update_height l x r = node l x (if ltb (above r) (above l) then above l else above r) r

  -- A null child in the place of the new root would be dereferenced.
  pub rotate_clockwise : Tree A → Option (Tree A)
  unfolding update_height
  rotate_clockwise (node (node p1 x2 h2 p3) x4 h4 p5) =
      some (update_height p1 x2 (update_height p3 x4 p5))
  rotate_clockwise _ = none

  pub rotate_counterclockwise : Tree A → Option (Tree A)
  unfolding update_height
  rotate_counterclockwise (node p1 x2 h2 (node p3 x4 h4 p5)) =
      some (update_height (update_height p1 x2 p3) x4 p5)
  rotate_counterclockwise _ = none

  -- `c->right == nullptr || (c->left != nullptr && c->left->height > c->right->height)`
  pub leans_left : Tree A → Bool
  leans_left nil = false
  leans_left (node a x h b) = is_null b || (not (is_null a) && ltb (above b) (above a))

  -- `c->left == nullptr || (c->right != nullptr && c->left->height <= c->right->height)`
  pub leans_right : Tree A → Bool
  leans_right nil = false
  leans_right (node a x h b) = is_null a || (not (is_null b) && leb (above a) (above b))

  -- One round of the loop of `update_height_and_rebalance`, at the node with these fields.
  pub rebalance : Tree A → A → ℕ → Tree A → Option (Tree A)
  unfolding update_height rotate_clockwise rotate_counterclockwise leans_left leans_right
  rebalance l x h r =
      if ltb (above r + 1) (above l) || ltb (above l + 1) (above r)
      then if ltb (above r) (above l) && leans_left l
        then rotate_clockwise (node l x h r)
        else if ltb (above l) (above r) && leans_right r
        then rotate_counterclockwise (node l x h r)
        else if ltb (above r) (above l) && leans_right l
        then rotate_counterclockwise l >>= (λ l'. rotate_clockwise (node l' x h r))
        else if ltb (above l) (above r) && leans_left r
        then rotate_clockwise r >>= (λ r'. rotate_counterclockwise (node l x h r'))
        else none
      else some (update_height l x r)

  -- Does `f` at the node that `p` leads to, then the loop of `update_height_and_rebalance` at each
  -- node above it, up to the root.
  pub modify : List Side → (Tree A → Option (Tree A)) → Tree A → Option (Tree A)
  modify [] f t = f t
  modify (_ ∷ p) f nil = none
  modify (left ∷ p) f (node l x h r) = modify p f l >>= (λ l'. rebalance l' x h r)
  modify (right ∷ p) f (node l x h r) = modify p f r >>= (λ r'. rebalance l x h r')

  -- The largest data of a subtree, and the subtree without its node.
  pub take_largest : Tree A → Option (A × Tree A)
  take_largest nil = none
  take_largest (node l x h nil) = some (x, l)
  take_largest (node l x h (node a y k b)) =
      take_largest (node a y k b)
      >>= (λ found. rebalance l x h found.1 >>= (λ t. some (found.0, t)))

  -- What `remove` puts in the place of the node.
  pub unlink : Tree A → Option (Tree A)
  unfolding take_largest rebalance
  unlink nil = none
  unlink (node nil x h nil) = some nil
  unlink (node nil x h (node a y k b)) = some (node a y k b)
  unlink (node (node a y k b) x h nil) = some (node a y k b)
  unlink (node (node a y k b) x h (node c z i d)) =
      take_largest (node a y k b) >>= (λ found. rebalance found.1 found.0 h (node c z i d))

  pub remove : List Side → Tree A → Option (Tree A)
  unfolding modify unlink
  remove p t = modify p unlink t

  -- The node that a pointer leads to, as the data that it holds.
  pub data_at : List Side → Tree A → Option A
  data_at p nil = none
  data_at [] (node l x h r) = some x
  data_at (left ∷ p) (node l x h r) = data_at p l
  data_at (right ∷ p) (node l x h r) = data_at p r

  -- `node->data = value`
  pub set_data : List Side → A → Tree A → Tree A
  set_data p v nil = nil
  set_data [] v (node l x h r) = node l v h r
  set_data (left ∷ p) v (node l x h r) = node (set_data p v l) x h r
  set_data (right ∷ p) v (node l x h r) = node l x h (set_data p v r)

  -- `none`: the tree is empty, and `wwassert` fails.
  pub smallest : Tree A → Option (List Side)
  smallest nil = none
  smallest (node nil x h r) = some []
  smallest (node (node a y k b) x h r) = smallest (node a y k b) >>= (λ p. some (left ∷ p))

  -- `if(child != nullptr) stack.push_back(child)`
  abbrev pub push_child : Tree A → List (Tree A) → List (Tree A)
  push_child nil stack = stack
  push_child (node l x h r) stack = node l x h r ∷ stack

  -- The loop of `items`: the stack's last element comes first here.
  pub items_loop : ℕ → List (Tree A) → List A → Option (List A)
  items_loop zero stack result = none
  items_loop (suc fuel) [] result = some result
  items_loop (suc fuel) (nil ∷ stack) result = none
  items_loop (suc fuel) (node l x h r ∷ stack) result =
      items_loop fuel (push_child l (push_child r stack)) (result ++ x ∷ [])

module _ {ℓ} {A : Type ℓ} where
  abbrev pub size : Tree A → ℕ
  size nil = 0
  size (node l x h r) = suc (size l + size r)

  -- A round of the loop takes one node off the stack, so the nodes of the tree bound the rounds.
  pub items : Tree A → Option (List A)
  unfolding items_loop
  items t = items_loop (suc (size t)) (push_child t []) []

-- The walk stops above a null child, and otherwise goes on in the child.
abbrev pub turn : Side → Option (List Side) → Option (List Side)
turn s none = some []
turn s (some p) = some (s ∷ p)

module _ {ℓ} {A : Type ℓ} (key : A → ℕ) where
  -- The node that the new data becomes a child of; `none` for an empty tree.
  pub find : A → Tree A → Option (List Side)
  find x nil = none
  find x (node l y h r) =
      if ltb (key x) (key y) then turn left (find x l) else turn right (find x r)

  -- Hangs the new node under the node found, which is then balanced first.
  pub attach : A → Tree A → Option (Tree A)
  unfolding rebalance
  attach x nil = none
  attach x (node l y h r) =
      if ltb (key x) (key y) then rebalance (leaf x) y h r else rebalance l y h (leaf x)

  pub insert : A → Tree A → Option (Tree A)
  unfolding find attach modify
  insert x t = elim (find x t) [ none ↦ some (leaf x) | some p ↦ modify p (attach x) t ]

  pub find_exact : A → Tree A → Option (List Side)
  find_exact x nil = none
  find_exact x (node l y h r) =
      if ltb (key x) (key y)
      then find_exact x l >>= (λ p. some (left ∷ p))
      else if ltb (key y) (key x)
      then find_exact x r >>= (λ p. some (right ∷ p))
      else some []
