-- ===== src/Descriptors/Returns.antt =====
-- kernel/process.cc: what the calls on descriptors return where they refuse, and the numbers of the
-- descriptors.
use wwos.Prelude.{
  ℕ, ◌+◌, ◌-◌, ◌%◌, ◌^◌, ◌≤◌, ◌<◌, ◌≡◌, ◌≢◌, refl, ap, ◌∙◌, arith, List, Bool, true, false, ◌&&◌,
  Option, none, some, ◌==◌, ==_true, ==_false, ltb, leb, if◌then◌else◌, length, dec_lt,
}
use wwos.Bytes.{Buffer}
use wwos.Map.Laws
use wwos.Map.Laws.{get-eq-contents, insert_refines_update, remove_refines_update}
use wwos.Nodes.{FdType, FdMode, Nodes}
use wwos.Nodes.Opening.{open_shared_file_node, close_shared_file_node}
use wwos.Descriptors.{
  FdInfo, FdStat, Kernel, fd_open, fd_create, fd_children, fd_read, fd_write, fd_stat, unit, bytes,
  stat, no_info, minus, has_fd, set_return_value, with_nodes, add_fd, check_pointer_validity,
  current_task_open, current_task_read, current_task_write, current_task_seek, current_task_stat,
  current_task_get_children, current_task_close, receive_syscall,
}
use wwos.Descriptors.Open.{IsOpen, get_fd_lem}

-- A range that does not wrap around passes the check exactly if it ends below the kernel's space; one
-- that starts below it and wraps around passes if it ends below it.
pub check_lem :
    (ka_begin va size : ℕ)
    → va < 2 ^ 64
    → size < 2 ^ 64
    → check_pointer_validity ka_begin va size ≡ (
        if ltb (va + size) (2 ^ 64)
        then ltb (va + size) ka_begin
        else ltb va ka_begin && ltb (va + size - 2 ^ 64) ka_begin)
unfolding check_pointer_validity
check_lem ka_begin va size v s = elim (dec_lt (va + size) (2 ^ 64)) [
  | yes l ↦ let m : (va + size) % 2 ^ 64 ≡ va + size = omega arith in rw m (ground arith)
  | no l ↦ let m : (va + size) % 2 ^ 64 ≡ va + size - 2 ^ 64 = omega arith in rw m (ground arith)
]

missing :
    (fd : ℕ) (k : Kernel)
    → Laws.IsValid k.task.fds
    → Laws.contents fd k.task.fds ≡ none
    → has_fd fd k ≡ false
missing fd k v n = (get-eq-contents no_info fd k.task.fds v).1 ∙ ap Laws.is_some n

-- At a number that is no descriptor of the process, `read`, `write` and `get_children` return -2 if
-- the pointer is valid, `seek`, `stat` and `close` return -1, and nothing else changes.
unknown_fd :
    (ka_begin fd address size offset : ℕ) (buffer : Buffer) (s : FdStat) (k : Kernel)
    → Laws.IsValid k.task.fds
    → Laws.contents fd k.task.fds ≡ none
    → check_pointer_validity ka_begin address size ≡ true
    → (current_task_read ka_begin fd address buffer size k
        ≡ some (buffer, set_return_value (minus 2) k))
      × (current_task_write ka_begin fd address buffer size k ≡ some (set_return_value (minus 2) k))
      × (current_task_get_children ka_begin fd address buffer size k
          ≡ some (buffer, set_return_value (minus 2) k))
      × (current_task_seek fd offset k ≡ some (set_return_value (minus 1) k))
      × (current_task_stat fd s k ≡ some (s, set_return_value (minus 1) k))
      × (current_task_close fd k ≡ some (set_return_value (minus 1) k))
unfolding current_task_read current_task_write current_task_get_children current_task_seek
    current_task_stat current_task_close
unknown_fd ka_begin fd address size offset buffer s k v n c =
    let m = missing fd k v n in
    (rw c (rw m refl), rw c (rw m refl), rw c (rw m refl), rw m refl, rw m refl, rw m refl)

-- The file calls with a pointer into the kernel's space return -1 and change nothing else.
kernel_pointer :
    (ka_begin fresh fd address size : ℕ) (path : List ℕ) (mode : FdMode) (type : FdType)
    (buffer : Buffer) (s : FdStat) (k : Kernel)
    → ka_begin ≤ address
    → (receive_syscall ka_begin (fd_open fresh address path mode) k
        ≡ some (unit (set_return_value (minus 1) k)))
      × (receive_syscall ka_begin (fd_create address path type) k
          ≡ some (unit (set_return_value (minus 1) k)))
      × (receive_syscall ka_begin (fd_children fd address buffer size) k
          ≡ some (bytes buffer (set_return_value (minus 1) k)))
      × (receive_syscall ka_begin (fd_read fd address buffer size) k
          ≡ some (bytes buffer (set_return_value (minus 1) k)))
      × (receive_syscall ka_begin (fd_write fd address buffer size) k
          ≡ some (unit (set_return_value (minus 1) k)))
      × (receive_syscall ka_begin (fd_stat fd address s) k
          ≡ some (stat s (set_return_value (minus 1) k)))
unfolding receive_syscall
kernel_pointer ka_begin fresh fd address size path mode type buffer s k h =
    let e : leb ka_begin address ≡ true = ground arith in
    (rw e refl, rw e refl, rw e refl, rw e refl, rw e refl, rw e refl)

-- The descriptors of a process are below its counter.
pub record IsNumbered (k : Kernel) : Type 0 where
  pub fds : Laws.IsValid k.task.fds
  pub unused : (j : ℕ) → Laws.contents (k.task.fd_counter + j) k.task.fds ≡ none

opened :
    (ka_begin fresh address : ℕ) (path : List ℕ) (mode : FdMode) (k k' : Kernel) (sfn : ℕ)
    (s : Nodes)
    → check_pointer_validity ka_begin address (length path) ≡ true
    → open_shared_file_node fresh k.task.pid path mode k.nodes ≡ some (sfn, s)
    → sfn ≢ 0
    → add_fd sfn mode (with_nodes s k) ≡ some k'
    → current_task_open ka_begin fresh address path mode k ≡ some k'
unfolding current_task_open
opened ka_begin fresh address path mode k k' sfn s c e z a = rw c (rw e (rw (==_false sfn 0 z) a))

-- Where the file system opens the file, `open` returns a number that was no descriptor of the process
-- and now is one of that file, at its beginning; the other descriptors stay what they were, and the
-- counter stays above all of them. The counter has not reached its last value.
pub open_lem :
    (ka_begin fresh address : ℕ) (path : List ℕ) (mode : FdMode) (k : Kernel) (sfn : ℕ) (s : Nodes)
    → IsNumbered k
    → k.task.fd_counter + 1 < 2 ^ 64
    → check_pointer_validity ka_begin address (length path) ≡ true
    → open_shared_file_node fresh k.task.pid path mode k.nodes ≡ some (sfn, s)
    → sfn ≢ 0
    → (k' : Kernel) × (current_task_open ka_begin fresh address path mode k ≡ some k')
      × (k'.nodes ≡ s)
      × (Laws.contents k'.task.return_value k.task.fds ≡ none)
      × IsOpen k'.task.return_value (record { node = sfn; mode = mode; offset = 0 }) k'
      × ((j : ℕ)
          → Laws.contents j k'.task.fds ≡ (
              if k'.task.return_value == j
              then some (record { node = sfn; mode = mode; offset = 0 })
              else Laws.contents j k.task.fds))
      × IsNumbered k'
open_lem ka_begin fresh address path mode k sfn s n l c e z =
    let fd = k.task.fd_counter in
    let info : FdInfo = record { node = sfn; mode = mode; offset = 0 } in
    let free : Laws.contents fd k.task.fds ≡ none =
      ap (λ j. Laws.contents j k.task.fds) {x = fd} {y = fd + 0} (omega arith) ∙ n.unused 0 in
    let (m, i, v, d) = insert_refines_update no_info fd info k.task.fds n.fds free in
    let k' =
      set_return_value fd (record k {
        task = record k.task { fd_counter = (fd + 1) % 2 ^ 64; fds = m };
        nodes = s;
      }) in
    let next : (fd + 1) % 2 ^ 64 ≡ fd + 1 = omega arith in
    (
      k',
      opened ka_begin fresh address path mode k k' sfn s c e z (rw i refl),
      refl,
      free,
      record { fds = v; held = d fd ∙ rw (==_true fd fd refl) refl },
      d,
      record {
        fds = v;
        unused = λ j.
            ap (λ x. Laws.contents (x + j) m) next
            ∙ d (fd + 1 + j)
            ∙ rw (==_false fd (fd + 1 + j) (omega arith)) refl
            ∙ ap (λ x. Laws.contents x k.task.fds) {x = fd + 1 + j} {y = fd + (1 + j)} (omega arith)
            ∙ n.unused (1 + j);
      },
    )

-- Where the shared node is closed, `close` takes the descriptor out, leaves the others what they were,
-- and returns 0.
close_lem :
    (fd : ℕ) (info : FdInfo) (k : Kernel) (r : Bool × Nodes)
    → IsNumbered k
    → Laws.contents fd k.task.fds ≡ some info
    → close_shared_file_node k.task.pid info.node k.nodes ≡ some r
    → (k' : Kernel) × (current_task_close fd k ≡ some k')
      × (k'.task.return_value ≡ 0)
      × (k'.nodes ≡ r.1)
      × ((j : ℕ)
          → Laws.contents j k'.task.fds ≡ (if fd == j then none else Laws.contents j k.task.fds))
      × IsNumbered k'
unfolding current_task_close
close_lem fd info k r n h c =
    let (e, g) = get_fd_lem fd info k (record { fds = n.fds; held = h }) in
    let (m, i, v, d) = remove_refines_update no_info fd k.task.fds n.fds h in
    (
      set_return_value 0 (record k { task = record k.task { fds = m }; nodes = r.1 }),
      rw e (rw g (rw c (rw i refl))),
      refl,
      refl,
      d,
      record {
        fds = v;
        unused = λ j.
            d (k.task.fd_counter + j)
            ∙ if_none (fd == (k.task.fd_counter + j))
                (Laws.contents (k.task.fd_counter + j) k.task.fds) (n.unused j);
      },
    )
  where
    if_none : (b : Bool) (o : Option FdInfo) → o ≡ none → (if b then none else o) ≡ none
    if_none true o e = refl
    if_none false o e = e
