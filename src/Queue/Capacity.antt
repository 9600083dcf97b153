-- ===== src/Queue/Capacity.antt =====
-- include/wwos/queue.h: the capacity of a queue stays what it was, and a new queue is empty.
use wwos.Prelude.{
  ℕ, ◌≡◌, refl, [], ◌==◌, Bool-cases, inl, inr, length, length-set, length-replicate,
}
use wwos.Queue.{CycleQueue, new, push, pop}
use wwos.Queue.Laws.{contents}
use wwos.Queue.Window.{length-window}

module _ {T : Type 0} where
  pub length-push : (x : T) (q : CycleQueue T) → length (push x q).1.m_data ≡ length q.m_data
  unfolding push
  length-push x q = elim (Bool-cases (q.m_size == length q.m_data)) [
    | inl e ↦ rw e refl
    | inr e ↦ rw e (length-set q.m_data q.m_tail x)
  ]

  pub length-pop : (q : CycleQueue T) → length (pop q).2.m_data ≡ length q.m_data
  unfolding pop
  length-pop q = elim (Bool-cases (q.m_size == 0)) [ inl e ↦ rw e refl | inr e ↦ rw e refl ]

  pub length-contents : (d : T) (q : CycleQueue T) → length (contents d q) ≡ q.m_size
  length-contents d q = length-window d q.m_data q.m_head q.m_size

  pub new-empty :
      (d : T) (capacity : ℕ)
      → (length (new d capacity).m_data ≡ capacity) × (contents d (new d capacity) ≡ [])
  unfolding new
  new-empty d capacity = (length-replicate capacity d, refl)
