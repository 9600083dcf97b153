-- ===== src/Nodes/Fifo.antt =====
-- kernel/filesystem.cc: reading and writing a shared node that is a FIFO is taking bytes off the front
-- of a list and adding bytes at its back.
use wwos.Prelude.{
  ℕ, zero, suc, ◌+◌, ◌-◌, ◌^◌, ◌%◌, ◌≤◌, ◌≡◌, ◌≢◌, refl, sym, ap, ◌∙◌, subst, arith, List, [], ◌∷◌,
  ◌++◌, Option, some, ◌>>=◌, ==_false, ==_true, length, append_assoc, append-nil,
}
use wwos.Bytes.{Buffer}
use wwos.Vector.Arrays.{take, drop}
use wwos.Map.Laws
use wwos.Map.Laws.{get-eq-contents, update_refines_update}
use wwos.Queue.{CycleQueue}
use wwos.Nodes.{
  FdType, Nodes, fifo_size, fifo_file, fifo_room, min, get_fifo, put_fifo, pop_bytes, read_fifo,
  write_fifo, read_shared_node, write_shared_node,
}
use wwos.Nodes.Pipes.{
  bytes_of, fill, Holds, Holds-size, Holds-le, bytes_of-fill, push_bytes_lem, pop_bytes_lem,
}

-- A node that is a FIFO of these bytes.
pub record IsPipe (sfn : ℕ) (xs : List ℕ) (s : Nodes) : Type 0 where
  pub queue : CycleQueue ℕ
  pub there : sfn ≢ 0
  pub type : (s.node sfn).type ≡ FdType.fifo
  pub fifos : Laws.IsValid s.p_fifo
  pub held : Laws.contents sfn s.p_fifo ≡ some queue
  pub holds : Holds fifo_size xs queue

fifo_size_lem : fifo_size ≡ 2 ^ 20
unfolding fifo_size
fifo_size_lem = refl

-- The queue of a FIFO, and the FIFO with another queue.
get_fifo_lem :
    (sfn : ℕ) (xs : List ℕ) (s : Nodes) (p : IsPipe sfn xs s) → get_fifo sfn s ≡ some p.queue
get_fifo_lem sfn xs s p = (get-eq-contents fifo_file sfn s.p_fifo p.fifos).0 ∙ p.held

put_fifo_lem :
    (sfn : ℕ) (xs ys : List ℕ) (q : CycleQueue ℕ) (s : Nodes)
    → IsPipe sfn xs s
    → Holds fifo_size ys q
    → (s' : Nodes) × (put_fifo sfn q s ≡ some s') × IsPipe sfn ys s'
put_fifo_lem sfn xs ys q s p h =
    let (m, e, v, c) = update_refines_update fifo_file sfn q s.p_fifo p.fifos p.held in
    (
      record s { p_fifo = m },
      rw e refl,
      record {
        queue = q;
        there = p.there;
        type = p.type;
        fifos = v;
        held = c sfn ∙ rw (==_true sfn sfn refl) refl;
        holds = h;
      },
    )

room_lem : (size : ℕ) → size ≤ fifo_size → (fifo_size + 2 ^ 64 - size) % 2 ^ 64 ≡ fifo_size - size
room_lem size h = let e = fifo_size_lem in omega arith

min-le : (a b : ℕ) → (min a b ≤ a) × (min a b ≤ b)
min-le a b = ground arith

-- The guards of the two functions at a FIFO.
at_fifo :
    (sfn offset size : ℕ) (buffer : Buffer) (xs : List ℕ) (s : Nodes)
    → IsPipe sfn xs s
    → (write_shared_node sfn s buffer offset size ≡ write_fifo sfn s buffer size)
      × (read_shared_node sfn s buffer offset size ≡ read_fifo sfn s buffer size)
unfolding write_shared_node read_shared_node
at_fifo sfn offset size buffer xs s p =
    (rw (==_false sfn 0 p.there, p.type) refl, rw (==_false sfn 0 p.there, p.type) refl)

fifo_room_lem :
    (sfn : ℕ) (xs : List ℕ) (s : Nodes) (p : IsPipe sfn xs s)
    → fifo_room p.queue ≡ fifo_size - length xs
fifo_room_lem sfn xs s p =
    ap (λ n. (fifo_size + 2 ^ 64 - n) % 2 ^ 64) (Holds-size fifo_size xs p.queue p.holds)
    ∙ room_lem (length xs) (Holds-le fifo_size xs p.queue p.holds)

-- `write_shared_node` adds the first bytes of the buffer, as many as there is room for, behind those
-- of a FIFO, and returns their number.
pub write_refines :
    (sfn offset size : ℕ) (buffer : Buffer) (xs : List ℕ) (s : Nodes)
    → IsPipe sfn xs s
    → (s' : Nodes) × (write_shared_node sfn s buffer offset size
        ≡ some (min (fifo_size - length xs) size, s'))
      × IsPipe sfn (xs ++ bytes_of (min (fifo_size - length xs) size) 0 buffer) s'
unfolding write_fifo
write_refines sfn offset size buffer xs s p =
    let n = min (fifo_size - length xs) size in
    let full = Holds-le fifo_size xs p.queue p.holds in
    let (q, e, h) =
      push_bytes_lem n 0 fifo_size xs buffer p.queue p.holds
        (omega (arith, full, (min-le (fifo_size - length xs) size).0)) in
    let (s', f, k) = put_fifo_lem sfn xs (xs ++ bytes_of n 0 buffer) q s p h in
    (
      s',
      (at_fifo sfn offset size buffer xs s p).0
          ∙ rw (get_fifo_lem sfn xs s p) (rw (fifo_room_lem sfn xs s p) (rw e (rw f refl))),
      k,
    )

take-drop :
    (n : ℕ) (xs : List ℕ) → n ≤ length xs → (take n xs ++ drop n xs ≡ xs) × (length (take n xs) ≡ n)
take-drop zero xs h = (refl, refl)
take-drop (suc n) [] h = absurd (omega arith)
take-drop (suc n) (x ∷ xs) h =
    let (e, f) = take-drop n xs (omega arith) in (ap (λ ys. x ∷ ys) e, omega (arith, f))

read_steps :
    (sfn size m : ℕ) (s s' : Nodes) (q q' : CycleQueue ℕ) (buffer buffer' : Buffer)
    → get_fifo sfn s ≡ some q
    → q.m_size ≡ m
    → pop_bytes (min m size) 0 buffer q ≡ some (buffer', q')
    → put_fifo sfn q' s ≡ some s'
    → read_fifo sfn s buffer size ≡ some (min m size, buffer', s')
unfolding read_fifo
read_steps sfn size m s s' q q' buffer buffer' g z e f =
    let e' = ap (λ k. pop_bytes (min k size) 0 buffer q) z ∙ e in
    rw g (rw e' (rw f (ap (λ k. some (min k size, buffer', s')) z)))

-- `read_shared_node` takes the first bytes off a FIFO, as many as it has and the caller wants, puts
-- them into the buffer, and returns their number.
pub read_refines :
    (sfn offset size : ℕ) (buffer : Buffer) (xs : List ℕ) (s : Nodes)
    → IsPipe sfn xs s
    → (s' : Nodes) × (read_shared_node sfn s buffer offset size
        ≡ some (min (length xs) size, fill 0 (take (min (length xs) size) xs) buffer, s'))
      × IsPipe sfn (drop (min (length xs) size) xs) s'
read_refines sfn offset size buffer xs s p =
    let n = min (length xs) size in
    let (t, l) = take-drop n xs (min-le (length xs) size).0 in
    let h : Holds fifo_size (take n xs ++ drop n xs) p.queue =
      subst (λ ys. Holds fifo_size ys p.queue) (sym t) p.holds in
    let (q, e, k) = pop_bytes_lem (take n xs) 0 fifo_size (drop n xs) buffer p.queue h in
    let e' = ap (λ m. pop_bytes m 0 buffer p.queue) (sym l) ∙ e in
    let (s', f, r) = put_fifo_lem sfn xs (drop n xs) q s p k in
    (
      s',
      (at_fifo sfn offset size buffer xs s p).1
          ∙ read_steps sfn size (length xs) s s' p.queue q buffer (fill 0 (take n xs) buffer)
              (get_fifo_lem sfn xs s p) (Holds-size fifo_size xs p.queue p.holds) e' f,
      r,
    )

-- A process's request to the FIFO: its buffer, offset and size.
pub data Event : Type 0 where
  read_bytes : Buffer → ℕ → ℕ → Event
  write_bytes : Buffer → ℕ → ℕ → Event

-- The bytes that the FIFO has accepted and those that it has given, in the order of the requests.
pub run : ℕ → List Event → Nodes → Option (List ℕ × List ℕ × Nodes)
unfolding read_shared_node write_shared_node
run sfn [] s = some ([], [], s)
run sfn (write_bytes buffer offset size ∷ events) s =
    write_shared_node sfn s buffer offset size
    >>= (λ r. run sfn events r.1 >>= (λ t. some (bytes_of r.0 0 buffer ++ t.0, t.1, t.2)))
run sfn (read_bytes buffer offset size ∷ events) s =
    read_shared_node sfn s buffer offset size
    >>= (λ r. run sfn events r.2 >>= (λ t. some (t.0, bytes_of r.0 0 r.1 ++ t.1, t.2)))

read_back :
    (n : ℕ) (xs : List ℕ) (b : Buffer)
    → n ≤ length xs
    → bytes_of n 0 (fill 0 (take n xs) b) ≡ take n xs
read_back n xs b h =
    let (t, l) = take-drop n xs h in
    ap (λ m. bytes_of m 0 (fill 0 (take n xs) b)) (sym l) ∙ bytes_of-fill (take n xs) 0 b

run_write :
    (sfn offset size n : ℕ) (buffer : Buffer) (events : List Event) (a g : List ℕ)
    (s s' s'' : Nodes)
    → write_shared_node sfn s buffer offset size ≡ some (n, s')
    → run sfn events s' ≡ some (a, g, s'')
    → run sfn (write_bytes buffer offset size ∷ events) s ≡ some (bytes_of n 0 buffer ++ a, g, s'')
unfolding run
run_write sfn offset size n buffer events a g s s' s'' e f = rw e (rw f refl)

run_read :
    (sfn offset size n : ℕ) (buffer buffer' : Buffer) (events : List Event) (a g : List ℕ)
    (s s' s'' : Nodes)
    → read_shared_node sfn s buffer offset size ≡ some (n, buffer', s')
    → run sfn events s' ≡ some (a, g, s'')
    → run sfn (read_bytes buffer offset size ∷ events) s ≡ some (a, bytes_of n 0 buffer' ++ g, s'')
unfolding run
run_read sfn offset size n buffer buffer' events a g s s' s'' e f = rw e (rw f refl)

-- Whatever requests to read and to write a FIFO come, in whatever order, all are served, and the bytes
-- that were read, with those that are left behind them, are those that it held at first, with the
-- bytes that it accepted behind them: none is lost, made up, read twice or out of order.
pub run_order :
    (sfn : ℕ) (events : List Event) (xs : List ℕ) (s : Nodes)
    → IsPipe sfn xs s
    → (accepted : List ℕ) × (given : List ℕ) × (left : List ℕ) × (s' : Nodes) × (run sfn events s
        ≡ some (accepted, given, s'))
      × (given ++ left ≡ xs ++ accepted)
      × IsPipe sfn left s'
unfolding run
run_order sfn [] xs s p = ([], [], xs, s, refl, sym (append-nil xs), p)
run_order sfn (write_bytes buffer offset size ∷ events) xs s p =
    let n = min (fifo_size - length xs) size in
    let (s', e, k) = write_refines sfn offset size buffer xs s p in
    let (a, g, l, s'', f, o, m) = run_order sfn events (xs ++ bytes_of n 0 buffer) s' k in
    (
      bytes_of n 0 buffer ++ a,
      g,
      l,
      s'',
      run_write sfn offset size n buffer events a g s s' s'' e f,
      o ∙ append_assoc xs (bytes_of n 0 buffer) a,
      m,
    )
run_order sfn (read_bytes buffer offset size ∷ events) xs s p =
    let n = min (length xs) size in
    let (s', e, k) = read_refines sfn offset size buffer xs s p in
    let (a, g, l, s'', f, o, m) = run_order sfn events (drop n xs) s' k in
    let h = (min-le (length xs) size).0 in
    (
      a,
      take n xs ++ g,
      l,
      s'',
      run_read sfn offset size n buffer (fill 0 (take n xs) buffer) events a g s s' s'' e f
          ∙ ap (λ ys. some (a, ys ++ g, s'')) (read_back n xs buffer h),
      append_assoc (take n xs) g l
          ∙ ap (λ ys. take n xs ++ ys) o
          ∙ sym (append_assoc (take n xs) (drop n xs) a)
          ∙ ap (λ ys. ys ++ a) (take-drop n xs h).0,
      m,
    )
