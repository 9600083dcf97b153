-- ===== src/Queue/Tests.antt =====
-- include/wwos/queue.h: the queue on small inputs.
use wwos.Prelude.{ℕ, ◌≡◌, [], ◌∷◌, arith}
use wwos.Queue.{CycleQueue, push}
use wwos.Queue.Deque
use wwos.Queue.Laws.{IsValid, contents, push_refines}

-- 8, then 9, round the end of the array.
abbrev wrapped : CycleQueue ℕ
wrapped = record { m_data = 9 ∷ 7 ∷ 8 ∷ []; m_head = 2; m_tail = 1; m_size = 2 }

wrapped-IsValid : IsValid wrapped
wrapped-IsValid = omega arith

push_refines_example :
    (((push 4 wrapped).0, contents 0 (push 4 wrapped).1) ≡ Deque.push 3 4 (8 ∷ 9 ∷ []))
    × IsValid (push 4 wrapped).1
push_refines_example = push_refines 0 4 wrapped wrapped-IsValid
