-- ===== src/Descriptors/Stream.antt =====
-- kernel/process.cc: reading a file on the disk through its descriptor, one piece after the other.
use wwos.Prelude.{
  ℕ, zero, suc, ◌+◌, ◌-◌, ◌%◌, ◌^◌, ◌≤◌, ◌<◌, ◌≡◌, refl, ap, ap₂, sym, subst, ◌∙◌, arith, List, [],
  ◌∷◌, ◌++◌, true, Option, some, ◌>>=◌, min, All,
}
use wwos.Bytes.{Buffer}
use wwos.Bytes.Copies.{in_range-true}
use wwos.Disk.{FileSystem, Inode, size_of}
use wwos.Wwfs.Content.{content}
use wwos.Wwfs.Upto.{IsRead}
use wwos.Nodes.{FdType, FdMode, Nodes, read_shared_node}
use wwos.Nodes.Pipes.{bytes_of}
use wwos.Nodes.Disk.{IsDiskFile, read_file_lem}
use wwos.Descriptors.{
  FdInfo, Kernel, set_offset, with_nodes, set_return_value, read_by, current_task_read,
  check_pointer_validity,
}
use wwos.Descriptors.Open.{IsOpen, get_fd_lem, set_offset_lem, check_inside}

-- A read of a file that is open for reading.
read_by_lem :
    (fd size : ℕ) (buffer : Buffer) (info : FdInfo) (k : Kernel)
    → info.mode ≡ FdMode.read_only
    → (k.nodes.node info.node).type ≡ FdType.file
    → read_by fd info buffer size k ≡ (
        read_shared_node info.node k.nodes buffer info.offset size >>= (λ r.
          set_offset fd info ((info.offset + r.0) % 2 ^ 64) (with_nodes r.2 k)
          >>= (λ k'. some (r.1, set_return_value r.0 k'))))
unfolding read_by
read_by_lem fd size buffer info k m t = rw m (rw t refl)

-- The steps of a read behind the guards.
read_steps :
    (ka_begin fd address size c : ℕ) (buffer out : Buffer) (info : FdInfo) (k k' : Kernel)
    → IsOpen fd info k
    → check_pointer_validity ka_begin address size ≡ true
    → info.mode ≡ FdMode.read_only
    → (k.nodes.node info.node).type ≡ FdType.file
    → read_shared_node info.node k.nodes buffer info.offset size ≡ some (c, out, k.nodes)
    → set_offset fd info ((info.offset + c) % 2 ^ 64) k ≡ some k'
    → current_task_read ka_begin fd address buffer size k ≡ some (out, set_return_value c k')
unfolding current_task_read
read_steps ka_begin fd address size c buffer out info k k' o v m t e f =
    let (h, g) = get_fd_lem fd info k o in
    rw v (
      rw h (
        rw g (
          read_by_lem fd size buffer info k m t
          ∙ ap
              (λ o. o >>= (λ r.
                set_offset fd info ((info.offset + r.0) % 2 ^ 64) (with_nodes r.2 k)
                >>= (λ k'. some (r.1, set_return_value r.0 k'))))
              e
          ∙ ap (λ o. o >>= (λ k'. some (out, set_return_value c k'))) f)))

-- One read: what it returns is in `return_value`.
read_lem :
    (ka_begin fd address size : ℕ) (buffer : Buffer) (info : FdInfo) (k : Kernel) (n : Inode)
    (blocks : List ℕ)
    → IsOpen fd info k
    → info.mode ≡ FdMode.read_only
    → IsDiskFile k.nodes info.node n blocks
    → info.offset ≤ size_of n
    → address + size < ka_begin
    → address + size < 2 ^ 63
    → (out : Buffer) × (k' : Kernel) × (current_task_read ka_begin fd address buffer size k
        ≡ some (out, k'))
      × (k'.task.return_value ≡ min size (size_of n - info.offset))
      × IsRead info.offset (min size (size_of n - info.offset)) k.nodes.fs blocks buffer out
      × IsOpen fd (record info { offset = info.offset + min size (size_of n - info.offset) }) k'
      × (k'.nodes ≡ k.nodes)
read_lem ka_begin fd address size buffer info k n blocks o m f l a b =
    let c = min size (size_of n - info.offset) in
    let (out, e, r) =
      read_file_lem info.node info.offset size buffer k.nodes n blocks f l (omega arith) in
    let (k', g, p, q) = set_offset_lem fd ((info.offset + c) % 2 ^ 64) info k o in
    let w : (info.offset + c) % 2 ^ 64 ≡ info.offset + c = omega (arith, f.bounded) in
    (
      out,
      set_return_value c k',
      read_steps ka_begin fd address size c buffer out info k k' o
          (check_inside ka_begin address size a (omega arith)) m f.type e g,
      refl,
      r,
      record { fds = p.fds; held = p.held ∙ ap (λ x. some (record info { offset = x })) w },
      q,
    )

-- The requests of a process to read: an address, the buffer there, and a size. What comes back is the
-- bytes that each call has returned, one behind the other.
pub read_all : ℕ → ℕ → List (ℕ × Buffer × ℕ) → Kernel → Option (List ℕ × Kernel)
unfolding current_task_read
read_all ka_begin fd [] k = some ([], k)
read_all ka_begin fd ((address, buffer, size) ∷ requests) k =
    current_task_read ka_begin fd address buffer size k >>= (λ r.
      read_all ka_begin fd requests r.1
      >>= (λ t. some (bytes_of r.1.task.return_value 0 r.0 ++ t.0, t.1)))

abbrev pub total : List (ℕ × Buffer × ℕ) → ℕ
total [] = 0
total ((address, buffer, size) ∷ requests) = size + total requests

-- A buffer of the process that ends below the kernel's space.
abbrev pub Fits : ℕ → ℕ × Buffer × ℕ → Type 0
Fits ka_begin r = (r.0 + r.2 < ka_begin) × (r.0 + r.2 < 2 ^ 63)

bytes_of-add :
    (m n i : ℕ) (b : Buffer) → bytes_of (m + n) i b ≡ bytes_of m i b ++ bytes_of n (i + m) b
bytes_of-add zero n i b =
    ap₂ (λ (k j : ℕ). bytes_of k j b) {x = 0 + n} {y = n} {u = i} {v = i + 0} (omega arith)
      (omega arith)
bytes_of-add (suc m) n i b =
    ap (λ k. bytes_of k i b) {x = suc m + n} {y = suc (m + n)} (omega arith)
    ∙ ap (λ xs. b i ∷ xs)
        (bytes_of-add m n (i + 1) b
          ∙ ap (λ j. bytes_of m (i + 1) b ++ bytes_of n j b) {x = i + 1 + m} {y = i + suc m}
              (omega arith))

-- The bytes that a read has put at the front of a buffer.
bytes_of-read :
    (c j offset : ℕ) (b out : Buffer)
    → ((i : ℕ) → i < c → out (j + i) ≡ b (offset + i))
    → bytes_of c j out ≡ bytes_of c offset b
bytes_of-read zero j offset b out h = refl
bytes_of-read (suc c) j offset b out h =
    ap₂ (λ (x : ℕ) (xs : List ℕ). x ∷ xs)
      (ap out {x = j} {y = j + 0} (omega arith)
        ∙ h 0 (omega arith)
        ∙ ap b {x = offset + 0} {y = offset} (omega arith))
      (bytes_of-read c (j + 1) (offset + 1) b out (λ i l.
        ap out {x = j + 1 + i} {y = j + (i + 1)} (omega arith)
        ∙ h (i + 1) (omega arith)
        ∙ ap b {x = offset + (i + 1)} {y = offset + 1 + i} (omega arith)))

piece :
    (offset c : ℕ) (fs : FileSystem) (blocks : List ℕ) (buffer out : Buffer)
    → IsRead offset c fs blocks buffer out
    → bytes_of c 0 out ≡ bytes_of c offset (content fs blocks)
piece offset c fs blocks buffer out r = bytes_of-read c 0 offset (content fs blocks) out (λ i l.
    ap out {x = 0 + i} {y = i} (omega arith)
    ∙ r i
    ∙ rw (in_range-true 0 c i (omega arith) (omega arith)) refl)

step :
    (ka_begin fd address size : ℕ) (buffer out : Buffer) (requests : List (ℕ × Buffer × ℕ))
    (k k' k'' : Kernel) (bytes : List ℕ)
    → current_task_read ka_begin fd address buffer size k ≡ some (out, k')
    → read_all ka_begin fd requests k' ≡ some (bytes, k'')
    → read_all ka_begin fd ((address, buffer, size) ∷ requests) k
      ≡ some (bytes_of k'.task.return_value 0 out ++ bytes, k'')
unfolding read_all
step ka_begin fd address size buffer out requests k k' k'' bytes e f = rw e (rw f refl)

-- Reads through a descriptor of a file on the disk, of any sizes, give together the bytes of the file
-- from the descriptor's offset on, as many as were asked for in all and up to the file's end, and
-- leave the offset behind the last. The buffers end below the kernel's space and below 2^63, and the
-- descriptor is open for reading.
pub read_all_lem :
    (requests : List (ℕ × Buffer × ℕ)) (ka_begin fd : ℕ) (info : FdInfo) (k : Kernel) (n : Inode)
    (blocks : List ℕ)
    → IsOpen fd info k
    → info.mode ≡ FdMode.read_only
    → IsDiskFile k.nodes info.node n blocks
    → info.offset ≤ size_of n
    → All (Fits ka_begin) requests
    → (k' : Kernel) × (read_all ka_begin fd requests k
        ≡ some (
          bytes_of
              (min (total requests) (size_of n - info.offset))
              info.offset
              (content k.nodes.fs blocks),
          k',
        ))
      × IsOpen fd
          (record info { offset = info.offset + min (total requests) (size_of n - info.offset) })
          k'
      × (k'.nodes ≡ k.nodes)
unfolding read_all
read_all_lem [] ka_begin fd info k n blocks o m f l a =
    let z : 0 ≡ min 0 (size_of n - info.offset) = omega arith in
    let y : info.offset ≡ info.offset + min 0 (size_of n - info.offset) = omega arith in
    (
      k,
      ap (λ c. some (bytes_of c info.offset (content k.nodes.fs blocks), k)) z,
      record { fds = o.fds; held = o.held ∙ ap (λ x. some (record info { offset = x })) y },
      refl,
    )
read_all_lem ((address, buffer, size) ∷ requests) ka_begin fd info k n blocks o m f l a =
    let c = min size (size_of n - info.offset) in
    let (out, k', e, v, r, o', same) =
      read_lem ka_begin fd address size buffer info k n blocks o m f l a.0.0 a.0.1 in
    let (k'', e', o'', same') =
      read_all_lem requests ka_begin fd (record info { offset = info.offset + c }) k' n blocks o' m
        (subst (λ s. IsDiskFile s info.node n blocks) (sym same) f) (omega (arith, l)) a.1 in
    let d = min (total requests) (size_of n - (info.offset + c)) in
    let sum : c + d ≡ min (size + total requests) (size_of n - info.offset) = omega (arith, l) in
    let there : info.offset + c + d
        ≡ info.offset + min (size + total requests) (size_of n - info.offset) =
      omega (arith, sum) in
    let b = content k.nodes.fs blocks in
    (
      k'',
      step ka_begin fd address size buffer out requests k k' k''
            (bytes_of d (info.offset + c) (content k'.nodes.fs blocks)) e e'
          ∙ ap₂
              (λ (xs : List ℕ) (s : Nodes).
                some (xs ++ bytes_of d (info.offset + c) (content s.fs blocks), k''))
              (ap (λ j. bytes_of j 0 out) v ∙ piece info.offset c k.nodes.fs blocks buffer out r)
              same
          ∙ ap (λ xs. some (xs, k''))
              (sym (bytes_of-add c d info.offset b) ∙ ap (λ j. bytes_of j info.offset b) sum),
      record { fds = o''.fds; held = o''.held ∙ ap (λ x. some (record info { offset = x })) there },
      same' ∙ same,
    )
