-- ===== src/Queue/Ends.antt =====
-- include/wwos/queue.h: the two operations that go back one index.
use native.Mathlib.Nat.{mod-lt, mod-eq_of_lt, mod-add-mod, add-mod_right}
use wwos.Prelude.{
  ℕ, zero, suc, ◌+◌, ◌-◌, ◌%◌, ◌^◌, ◌≤◌, ◌<◌, ◌≡◌, ◌⊎◌, refl, ◌∙◌, ap, ◌∷◌, arith, true, ◌==◌,
  Bool-cases, inl, inr, get_or-set_self, length, set, length-set, get_elem?-eq-get_or,
}
use wwos.Queue.Deque
use wwos.Queue.{CycleQueue, previous, push_front, pop_back}
use wwos.Queue.Window.{window, wrap_once, length-window, window-set_outside}
use wwos.Queue.Laws.{IsValid, contents, contents_back, contents_empty}

previous_cases :
    (i capacity : ℕ)
    → i < capacity
    → capacity ≤ 2 ^ 63
    → ((i ≡ 0) × (previous i capacity ≡ capacity - 1)) ⊎ ((0 < i) × (previous i capacity ≡ i - 1))
previous_cases zero c p q =
    let e : ((0 + (2 ^ 64 - 1)) % 2 ^ 64 + c) % 2 ^ 64 ≡ c - 1 = omega arith in
    inl (refl, rw e (mod-eq_of_lt {n = c - 1} {m = c} (omega arith)))
previous_cases (suc i) c p q =
    let e : ((suc i + (2 ^ 64 - 1)) % 2 ^ 64 + c) % 2 ^ 64 ≡ i + c = omega arith in
    inr (omega arith, rw e (wrap_once (i + c) c (omega arith) (omega arith) ∙ omega arith))

-- Going back one index from inside the array stays inside, and going on again comes back.
previous_lem :
    (i capacity : ℕ)
    → i < capacity
    → capacity ≤ 2 ^ 63
    → (previous i capacity < capacity)
      × (previous i capacity ≡ (i + (capacity - 1)) % capacity)
      × ((previous i capacity + 1) % capacity ≡ i)
previous_lem i c p q = elim (previous_cases i c p q) [
  | inl (z, e) ↦ rw e (
    omega arith,
    omega (arith, mod-eq_of_lt {n = i + (c - 1)} {m = c} (omega arith)),
    omega (arith, wrap_once (c - 1 + 1) c (omega arith) (omega arith)),
  )
  | inr (z, e) ↦ rw e (
    omega arith,
    omega (arith, wrap_once (i + (c - 1)) c (omega arith) (omega arith)),
    omega (arith, mod-eq_of_lt {n = i - 1 + 1} {m = c} (omega arith)),
  )
]

from_before :
    (i h capacity n : ℕ) → (i + 1) % capacity ≡ h → (h + n) % capacity ≡ (i + suc n) % capacity
from_before i h c n e = rw (← e, mod-add-mod) (ap (λ k. k % c) (omega arith))

module _ {T : Type 0} where
  -- `push_front` keeps a valid queue valid and, unless it is full, adds the element at the front.
  push_front_refines :
      (d x : T) (q : CycleQueue T)
      → IsValid q
      → (((push_front x q).0, contents d (push_front x q).1)
          ≡ Deque.push_front (length q.m_data) x (contents d q))
        × IsValid (push_front x q).1
  unfolding push_front
  push_front_refines d x q v = elim (Bool-cases (q.m_size == length q.m_data)) [
    | inl e ↦ rw (length-window, e) (refl, v)
    | inr e ↦
        let room : q.m_size < length q.m_data = ground arith in
        let s : (q.m_size + 1) % 2 ^ 64 ≡ suc q.m_size = omega arith in
        let i = previous q.m_head (length q.m_data) in
        let (low, at, back) = previous_lem q.m_head (length q.m_data) v.head_in v.small in
        rw (length-window, e, s)
          (
            ap (λ xs. (true, xs)) (front_window i low at back room),
            record {
              positive = rw length-set v.positive;
              small = rw length-set v.small;
              head_in = rw length-set low;
              size_in = rw length-set room;
              tail_at =
                  rw length-set
                    (v.tail_at ∙ from_before i q.m_head (length q.m_data) q.m_size back);
            },
          )
  ]
    where
      front_window :
          (i : ℕ)
          → i < length q.m_data
          → i ≡ (q.m_head + (length q.m_data - 1)) % length q.m_data
          → (i + 1) % length q.m_data ≡ q.m_head
          → q.m_size < length q.m_data
          → window d (set q.m_data i x) i (suc q.m_size) ≡ x ∷ contents d q
      front_window i low at back room =
          rw (get_or-set_self q.m_data i x d low, length-set q.m_data i x, back)
            (ap (λ xs. x ∷ xs)
              (window-set_outside d q.m_data x q.m_head q.m_size (length q.m_data - 1) i v.head_in
                (omega arith) (omega arith) at))

  -- `pop_back` takes the element at the back off a valid queue, if there is one, and keeps it valid.
  pop_back_refines :
      (d : T) (q : CycleQueue T)
      → IsValid q
      → (((pop_back q).0, (pop_back q).1, contents d (pop_back q).2)
          ≡ Deque.pop_back (contents d q))
        × IsValid (pop_back q).2
  unfolding pop_back
  pop_back_refines d q v = elim (Bool-cases (q.m_size == 0)) [
    | inl e ↦ rw (e, contents_empty d q e) (refl, v)
    | inr e ↦
        let some_left : 0 < q.m_size = ground arith in
        let inside : q.m_tail < length q.m_data = rw v.tail_at (mod-lt _ v.positive) in
        let (low, at, back) = previous_lem q.m_tail (length q.m_data) inside v.small in
        let here = last_index some_left at in
        rw
          (
            e,
            contents_back d q v e,
            Deque.pop_back-append,
            get_elem?-eq-get_or q.m_data (previous q.m_tail (length q.m_data)) d low,
            here,
          )
          (
            refl,
            record {
              positive = v.positive;
              small = v.small;
              head_in = v.head_in;
              size_in = omega arith;
              tail_at = refl;
            },
          )
  ]
    where
      last_index :
          0 < q.m_size
          → previous q.m_tail (length q.m_data)
            ≡ (q.m_tail + (length q.m_data - 1)) % length q.m_data
          → previous q.m_tail (length q.m_data) ≡ (q.m_head + (q.m_size - 1)) % length q.m_data
      last_index p at =
          let c = length q.m_data in
          let sum : q.m_head + q.m_size + (c - 1) ≡ q.m_head + (q.m_size - 1) + c =
            omega (arith, v.positive) in
          at ∙ rw (v.tail_at, mod-add-mod, sum) (add-mod_right (q.m_head + (q.m_size - 1)) c)
