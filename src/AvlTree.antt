-- ===== src/AvlTree.antt =====
-- include/wwos/avl.h: the class `avl_tree`, a root and a count around the nodes.
pub mod Clear
mod Tests
use wwos.Prelude.{
  ℕ, zero, suc, ◌+◌, ◌-◌, ◌^◌, ◌%◌, List, [], Bool, true, false, Option, none, some, ◌>>=◌, ◌==◌,
  not,
}
use wwos.Avl
use wwos.Avl.{Tree, nil, node, Side, is_null, size}

pub record AvlTree (A : Type 0) : Type 0 where
  pub root : Tree A
  pub m_size : ℕ

module _ {A : Type 0} where
  abbrev pub new : AvlTree A
  new = record { root = nil; m_size = 0 }

  unfoldable pub insert : (A → ℕ) → A → AvlTree A → Option (AvlTree A)
  insert key x t =
      Avl.insert key x t.root
      >>= (λ r. some (record { root = r; m_size = (t.m_size + 1) % 2 ^ 64 }))

  -- `none` in the place of the pointer is the null pointer.
  unfoldable pub remove : Option (List Side) → AvlTree A → Option (AvlTree A)
  remove none t = some t
  remove (some p) t =
      Avl.remove p t.root
      >>= (λ r. some (record { root = r; m_size = (t.m_size + (2 ^ 64 - 1)) % 2 ^ 64 }))

  unfoldable pub empty : AvlTree A → Bool
  empty t = is_null t.root

  -- The method is declared `bool`: it tells zero from the rest.
  pub size_bool : AvlTree A → Bool
  size_bool t = not (t.m_size == 0)

  -- One round of the loop removes the root.
  clear_loop : ℕ → AvlTree A → Option (AvlTree A)
  clear_loop zero t = none
  clear_loop (suc fuel) t = elim (is_null t.root) [
    | true ↦ some t
    | false ↦ remove (some []) t >>= clear_loop fuel
  ]

  pub clear : AvlTree A → Option (AvlTree A)
  unfolding clear_loop remove
  clear t = clear_loop (suc (size t.root)) t
