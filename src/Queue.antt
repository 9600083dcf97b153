-- ===== src/Queue.antt =====
-- include/wwos/queue.h: `cycle_queue`, a double-ended queue of fixed capacity in an array.
-- A method that writes through a reference returns what it wrote beside its result.
pub mod Deque
mod Window
pub mod Laws
pub mod Ends
pub mod Capacity
mod Tests
use wwos.Prelude.{
  ℕ, zero, suc, ◌+◌, ◌-◌, ◌%◌, ◌^◌, List, [], ◌∷◌, ◌++◌, Bool, true, false, Option, none, some,
  ◌==◌, if◌then◌else◌, length, get_elem?, set, replicate,
}

pub record CycleQueue (T : Type 0) : Type 0 where
  pub m_data : List T
  pub m_head : ℕ
  pub m_tail : ℕ
  pub m_size : ℕ

-- `(i - 1 + m_data.size()) % m_data.size()`: the subtraction wraps at zero, the sum wraps back.
abbrev pub previous : ℕ → ℕ → ℕ
previous i capacity = ((i + (2 ^ 64 - 1)) % 2 ^ 64 + capacity) % 2 ^ 64 % capacity

module _ {T : Type 0} where
  -- `m_data(capacity)`: an array of default values.
  pub new : T → ℕ → CycleQueue T
  new default capacity = record {
    m_data = replicate capacity default;
    m_head = 0;
    m_tail = 0;
    m_size = 0;
  }

  pub push : T → CycleQueue T → Bool × CycleQueue T
  push x q = if q.m_size == length q.m_data then (false, q) else (
    true,
    record q {
      m_data = set q.m_data q.m_tail x;
      m_tail = (q.m_tail + 1) % 2 ^ 64 % length q.m_data;
      m_size = (q.m_size + 1) % 2 ^ 64;
    },
  )

  pub push_front : T → CycleQueue T → Bool × CycleQueue T
  push_front x q =
      let head = previous q.m_head (length q.m_data) in
      if q.m_size == length q.m_data then (false, q) else (
        true,
        record q { m_data = set q.m_data head x; m_head = head; m_size = (q.m_size + 1) % 2 ^ 64 },
      )

  -- `none` beside `true` would be a read outside the array.
  pub pop : CycleQueue T → Bool × Option T × CycleQueue T
  pop q = if q.m_size == 0 then (false, none, q) else (
    true,
    get_elem? q.m_data q.m_head,
    record q { m_head = (q.m_head + 1) % 2 ^ 64 % length q.m_data; m_size = q.m_size - 1 },
  )

  pub get_front : CycleQueue T → Bool × Option T
  get_front q = if q.m_size == 0 then (false, none) else (true, get_elem? q.m_data q.m_head)

  pub pop_back : CycleQueue T → Bool × Option T × CycleQueue T
  pop_back q =
      let last = previous q.m_tail (length q.m_data) in
      if q.m_size == 0
      then (false, none, q)
      else (true, get_elem? q.m_data last, record q { m_tail = last; m_size = q.m_size - 1 })

  pub clear : CycleQueue T → CycleQueue T
  clear q = record q { m_head = 0; m_tail = 0; m_size = 0 }

  pub full : CycleQueue T → Bool
  full q = q.m_size == length q.m_data

  -- The rounds of the loop of `items` from `i` on; `none` for a read outside the array.
  pub items_loop : ℕ → ℕ → CycleQueue T → List T → Option (List T)
  items_loop zero i q out = some out
  items_loop (suc rounds) i q out =
      elim (get_elem? q.m_data ((q.m_head + i) % 2 ^ 64 % length q.m_data)) [
        | none ↦ none
        | some x ↦ items_loop rounds (i + 1) q (out ++ x ∷ [])
      ]

  pub items : CycleQueue T → Option (List T)
  unfolding items_loop
  items q = items_loop q.m_size 0 q []
