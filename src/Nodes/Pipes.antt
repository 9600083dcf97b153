-- ===== src/Nodes/Pipes.antt =====
-- kernel/filesystem.cc: the loops of `read_shared_node` and `write_shared_node` over the bytes of a
-- FIFO, on the lists of these bytes.
use wwos.Prelude.{
  ℕ, zero, suc, ◌+◌, ◌≤◌, ◌<◌, ◌≡◌, refl, sym, ap, ◌∙◌, arith, List, [], ◌∷◌, ◌++◌, Bool, true,
  false, Option, none, some, ==_false, ==_true, ap₂, length, length-append, append_assoc,
  append-nil,
}
use wwos.Bytes.{Buffer, put}
use wwos.Queue
use wwos.Queue.{CycleQueue}
use wwos.Queue.Deque
use wwos.Queue.Laws.{IsValid, contents, push_refines, pop_refines}
use wwos.Queue.Capacity.{length-contents, length-push, length-pop}
use wwos.Nodes.{popped, pop_bytes, push_bytes}

-- The `n` bytes of a buffer from the index `i` on.
abbrev pub bytes_of : ℕ → ℕ → Buffer → List ℕ
bytes_of zero i b = []
bytes_of (suc n) i b = b i ∷ bytes_of n (i + 1) b

-- The bytes, to the buffer from the index `i` on.
abbrev pub fill : ℕ → List ℕ → Buffer → Buffer
fill i [] b = b
fill i (x ∷ xs) b = fill (i + 1) xs (put b i x)

pub length-bytes_of : (n i : ℕ) (b : Buffer) → length (bytes_of n i b) ≡ n
length-bytes_of zero i b = refl
length-bytes_of (suc n) i b = omega (arith, length-bytes_of n (i + 1) b)

-- A queue that holds these bytes, in an array of this length.
pub record Holds (capacity : ℕ) (xs : List ℕ) (q : CycleQueue ℕ) : Type 0 where
  pub valid : IsValid q
  pub room : length q.m_data ≡ capacity
  pub bytes : contents 0 q ≡ xs

pub Holds-size :
    (capacity : ℕ) (xs : List ℕ) (q : CycleQueue ℕ) → Holds capacity xs q → q.m_size ≡ length xs
Holds-size capacity xs q h = sym (length-contents 0 q) ∙ ap length h.bytes

push_lem :
    (capacity x : ℕ) (xs : List ℕ) (q : CycleQueue ℕ)
    → Holds capacity xs q
    → length xs < capacity
    → ((Queue.push x q).0 ≡ true) × Holds capacity (xs ++ (x ∷ [])) (Queue.push x q).1
push_lem capacity x xs q h l =
    let (e, v) = push_refines 0 x q h.valid in
    let f : Deque.push (length q.m_data) x (contents 0 q) ≡ (true, xs ++ (x ∷ [])) =
      rw (h.bytes, h.room) (rw (==_false (length xs) capacity (omega arith)) refl) in
    (
      ap (λ r. r.0) (e ∙ f),
      record { valid = v; room = length-push x q ∙ h.room; bytes = ap (λ r. r.1) (e ∙ f) },
    )

pub push_bytes_lem :
    (n i capacity : ℕ) (xs : List ℕ) (b : Buffer) (q : CycleQueue ℕ)
    → Holds capacity xs q
    → length xs + n ≤ capacity
    → (q' : CycleQueue ℕ) × (push_bytes n i b q ≡ some q')
      × Holds capacity (xs ++ bytes_of n i b) q'
unfolding push_bytes
push_bytes_lem zero i capacity xs b q h l =
    (q, refl, record { valid = h.valid; room = h.room; bytes = h.bytes ∙ sym (append-nil xs) })
push_bytes_lem (suc n) i capacity xs b q h l =
    let (e, k) = push_lem capacity (b i) xs q h (omega arith) in
    let (q', f, m) =
      push_bytes_lem n (i + 1) capacity (xs ++ (b i ∷ [])) b (Queue.push (b i) q).1 k
        (omega (arith, length-append xs (b i ∷ []))) in
    (
      q',
      rw e f,
      record {
        valid = m.valid;
        room = m.room;
        bytes = m.bytes ∙ append_assoc xs (b i ∷ []) (bytes_of n (i + 1) b);
      },
    )

popped-some :
    (i x : ℕ) (b : Buffer) (r : Bool × Option ℕ × CycleQueue ℕ)
    → r.0 ≡ true
    → r.1 ≡ some x
    → popped i b r ≡ some (put b i x, r.2)
popped-some i x b (true, some y, q) e f = cc
popped-some i x b (true, none, q) e f = cc
popped-some i x b (false, o, q) e f = cc

pop_lem :
    (capacity x i : ℕ) (xs : List ℕ) (b : Buffer) (q : CycleQueue ℕ)
    → Holds capacity (x ∷ xs) q
    → (popped i b (Queue.pop q) ≡ some (put b i x, (Queue.pop q).2))
      × Holds capacity xs (Queue.pop q).2
pop_lem capacity x i xs b q h =
    let (e, v) = pop_refines 0 q h.valid in
    let f = e ∙ ap Deque.pop h.bytes in
    (
      popped-some i x b (Queue.pop q) (ap (λ r. r.0) f) (ap (λ r. r.1) f),
      record { valid = v; room = length-pop q ∙ h.room; bytes = ap (λ r. r.2) f },
    )

pub pop_bytes_lem :
    (xs : List ℕ) (i capacity : ℕ) (ys : List ℕ) (b : Buffer) (q : CycleQueue ℕ)
    → Holds capacity (xs ++ ys) q
    → (q' : CycleQueue ℕ) × (pop_bytes (length xs) i b q ≡ some (fill i xs b, q'))
      × Holds capacity ys q'
unfolding pop_bytes
pop_bytes_lem [] i capacity ys b q h = (q, refl, h)
pop_bytes_lem (x ∷ xs) i capacity ys b q h =
    let (e, k) = pop_lem capacity x i (xs ++ ys) b q h in
    let (q', f, m) = pop_bytes_lem xs (i + 1) capacity ys (put b i x) (Queue.pop q).2 k in
    (q', rw e f, m)

pub Holds-le :
    (capacity : ℕ) (xs : List ℕ) (q : CycleQueue ℕ) → Holds capacity xs q → length xs ≤ capacity
Holds-le capacity xs q h = omega (arith, Holds-size capacity xs q h, h.valid.size_in, h.room)

fill-below : (xs : List ℕ) (i j : ℕ) (b : Buffer) → j < i → fill i xs b j ≡ b j
fill-below [] i j b h = refl
fill-below (x ∷ xs) i j b h =
    fill-below xs (i + 1) j (put b i x) (omega arith) ∙ rw (==_false i j (omega arith)) refl

-- The bytes that were put into a buffer stand there.
pub bytes_of-fill : (xs : List ℕ) (i : ℕ) (b : Buffer) → bytes_of (length xs) i (fill i xs b) ≡ xs
bytes_of-fill [] i b = refl
bytes_of-fill (x ∷ xs) i b =
    ap₂ (λ (y : ℕ) (ys : List ℕ). y ∷ ys)
      (fill-below xs (i + 1) i (put b i x) (omega arith) ∙ rw (==_true i i refl) refl)
      (bytes_of-fill xs (i + 1) (put b i x))
