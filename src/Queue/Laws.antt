-- ===== src/Queue/Laws.antt =====
-- include/wwos/queue.h: a valid queue is the list of its elements, front first, of bounded length.
use native.Mathlib.Nat.{mod-lt, mod-eq_of_lt, mod-add-mod, add_assoc}
use wwos.Prelude.{
  ℕ, zero, suc, ◌+◌, ◌-◌, ◌%◌, ◌^◌, ◌≤◌, ◌<◌, ◌≡◌, refl, ◌∙◌, sym, ap, List, [], ◌∷◌, ◌++◌, arith,
  true, false, some, append_assoc, append-nil, ◌==◌, Bool-cases, inl, inr, not, length, get_or,
  length-set, length-replicate, get_elem?-eq-get_or,
}
use wwos.Queue.Deque
use wwos.Queue.{CycleQueue, new, push, push_front, pop, get_front, clear, full, items_loop, items}
use wwos.Queue.Window.{window, length-window, window_last, window-set_end}

module _ {T : Type 0} where
  -- The bound on the capacity keeps every index sum below 2^64.
  pub record IsValid (q : CycleQueue T) : Type 0 where
    pub positive : 0 < length q.m_data
    pub small : length q.m_data ≤ 2 ^ 63
    pub head_in : q.m_head < length q.m_data
    pub size_in : q.m_size ≤ length q.m_data
    pub tail_at : q.m_tail ≡ (q.m_head + q.m_size) % length q.m_data

  pub new-IsValid :
      (d : T) (capacity : ℕ) → 0 < capacity → capacity ≤ 2 ^ 63 → IsValid (new d capacity)
  unfolding new
  new-IsValid d capacity p q =
      let e = length-replicate capacity d in
      record {
        positive = rw e p;
        small = rw e q;
        head_in = rw e p;
        size_in = omega arith;
        tail_at = rw e (sym (mod-eq_of_lt {n = 0 + 0} {m = capacity} p));
      }

  -- The elements of the queue, front first; `d` stands for a read outside the array.
  abbrev pub contents : T → CycleQueue T → List T
  contents d q = window d q.m_data q.m_head q.m_size

  next_lem :
      (q : CycleQueue T)
      → IsValid q
      → (q.m_tail + 1) % 2 ^ 64 % length q.m_data ≡ (q.m_head + (q.m_size + 1)) % length q.m_data
  next_lem q v =
      let inside : q.m_tail < length q.m_data = rw v.tail_at (mod-lt _ v.positive) in
      let e : (q.m_tail + 1) % 2 ^ 64 ≡ q.m_tail + 1 = omega arith in
      rw (e, v.tail_at, mod-add-mod) (ap (λ i. i % length q.m_data) (omega arith))

  -- `push` keeps a valid queue valid and, unless it is full, adds the element at the back.
  pub push_refines :
      (d x : T) (q : CycleQueue T)
      → IsValid q
      → (((push x q).0, contents d (push x q).1) ≡ Deque.push (length q.m_data) x (contents d q))
        × IsValid (push x q).1
  unfolding push
  push_refines d x q v = elim (Bool-cases (q.m_size == length q.m_data)) [
    | inl e ↦ rw (length-window, e) (refl, v)
    | inr e ↦
        let room : q.m_size < length q.m_data = ground arith in
        let s : (q.m_size + 1) % 2 ^ 64 ≡ suc q.m_size = omega arith in
        rw (length-window, e, s)
          (
            ap (λ xs. (true, xs))
                (window-set_end d q.m_data x q.m_head q.m_size q.m_tail v.head_in room v.tail_at),
            record {
              positive = rw length-set v.positive;
              small = rw length-set v.small;
              head_in = rw length-set v.head_in;
              size_in = rw length-set room;
              tail_at =
                  rw length-set
                    (next_lem q v ∙ ap (λ i. (q.m_head + i) % length q.m_data) (omega arith));
            },
          )
  ]

  pub contents_empty : (d : T) (q : CycleQueue T) → (q.m_size == 0) ≡ true → contents d q ≡ []
  contents_empty d q e = let z : q.m_size ≡ 0 = ground arith in ap (window d q.m_data q.m_head) z

  pub contents_front :
      (d : T) (q : CycleQueue T)
      → (q.m_size == 0) ≡ false
      → contents d q
        ≡ get_or q.m_data q.m_head d
          ∷ window d q.m_data ((q.m_head + 1) % length q.m_data) (q.m_size - 1)
  contents_front d q e =
      let z : q.m_size ≡ suc (q.m_size - 1) = ground arith in ap (window d q.m_data q.m_head) z

  pub contents_back :
      (d : T) (q : CycleQueue T)
      → IsValid q
      → (q.m_size == 0) ≡ false
      → contents d q
        ≡ window d q.m_data q.m_head (q.m_size - 1)
          ++ (get_or q.m_data ((q.m_head + (q.m_size - 1)) % length q.m_data) d ∷ [])
  contents_back d q v e =
      let z : q.m_size ≡ suc (q.m_size - 1) = ground arith in
      ap (window d q.m_data q.m_head) z ∙ window_last d q.m_data q.m_head (q.m_size - 1) v.head_in

  -- `get_front` reads the front element of a valid queue, if there is one.
  get_front_refines :
      (d : T) (q : CycleQueue T) → IsValid q → get_front q ≡ Deque.get_front (contents d q)
  unfolding get_front
  get_front_refines d q v = elim (Bool-cases (q.m_size == 0)) [
    | inl e ↦ rw (contents_empty d q e, e)
    | inr e ↦ rw (contents_front d q e, e, get_elem?-eq-get_or q.m_data q.m_head d v.head_in)
  ]

  -- `pop` takes the front element off a valid queue, if there is one, and keeps it valid.
  pub pop_refines :
      (d : T) (q : CycleQueue T)
      → IsValid q
      → (((pop q).0, (pop q).1, contents d (pop q).2) ≡ Deque.pop (contents d q))
        × IsValid (pop q).2
  unfolding pop
  pop_refines d q v = elim (Bool-cases (q.m_size == 0)) [
    | inl e ↦ rw (e, contents_empty d q e) (refl, v)
    | inr e ↦
        let s : (q.m_head + 1) % 2 ^ 64 ≡ q.m_head + 1 = omega arith in
        let some_left : 0 < q.m_size = ground arith in
        rw (e, contents_front d q e, get_elem?-eq-get_or q.m_data q.m_head d v.head_in, s)
          (
            refl,
            record {
              positive = v.positive;
              small = v.small;
              head_in = mod-lt _ v.positive;
              size_in = omega arith;
              tail_at = v.tail_at ∙ rw mod-add-mod (ap (λ i. i % length q.m_data) (omega arith));
            },
          )
  ]

  items_loop_lem :
      (d : T) (q : CycleQueue T) (rounds i : ℕ) (out : List T)
      → IsValid q
      → i + rounds ≡ q.m_size
      → items_loop rounds i q out
        ≡ some (out ++ window d q.m_data ((q.m_head + i) % length q.m_data) rounds)
  unfolding items_loop
  items_loop_lem d q zero i out v e = rw append-nil
  items_loop_lem d q (suc n) i out v e =
      let s : (q.m_head + i) % 2 ^ 64 ≡ q.m_head + i = omega arith in
      let j = (q.m_head + i) % length q.m_data in
      rw (s, get_elem?-eq-get_or q.m_data j d (mod-lt _ v.positive), items_loop)
        (items_loop_lem d q n (i + 1) (out ++ (get_or q.m_data j d ∷ [])) v (omega arith)
          ∙ rw (append_assoc, mod-add-mod, add_assoc))

  -- `items` copies the elements of a valid queue out, front first.
  items-contents : (d : T) (q : CycleQueue T) → IsValid q → items q ≡ some (contents d q)
  unfolding items
  items-contents d q v =
      items_loop_lem d q q.m_size 0 [] v (omega arith)
      ∙ ap (λ h. some (window d q.m_data h q.m_size))
          (mod-eq_of_lt {n = q.m_head + 0} {m = length q.m_data} (omega arith) ∙ omega arith)

  -- `clear` empties a valid queue and keeps it valid, and `full` tells when `push` and `push_front`
  -- refuse.
  clear_refines :
      (d x : T) (q : CycleQueue T)
      → IsValid q
      → (contents d (clear q) ≡ [])
        × IsValid (clear q)
        × (full q ≡ not (push x q).0)
        × (full q ≡ not (push_front x q).0)
  unfolding clear full push push_front
  clear_refines d x q v = (
    refl,
    record {
      positive = v.positive;
      small = v.small;
      head_in = v.positive;
      size_in = omega arith;
      tail_at = sym (mod-eq_of_lt {n = 0 + 0} {m = length q.m_data} v.positive);
    },
    elim (Bool-cases (q.m_size == length q.m_data)) [ inl e ↦ rw e | inr e ↦ rw e ],
    elim (Bool-cases (q.m_size == length q.m_data)) [ inl e ↦ rw e | inr e ↦ rw e ],
  )
