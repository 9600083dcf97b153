-- ===== src/Descriptors.antt =====
-- kernel/process.cc, kernel/process.h: the file descriptors of a process. The state is what these
-- calls read and write: the part of the executing task that belongs to its files, and the shared
-- nodes. What a call returns to the process is in `return_value`. A user's pointer is an address and
-- what stands behind it. A result `none` is a failed `wwassert` or an access out of bounds.
pub mod Open
pub mod Returns
pub mod Stream
mod Tests
use wwos.Prelude.{
  ℕ, ◌+◌, ◌-◌, ◌%◌, ◌^◌, List, [], ◌∷◌, Bool, true, false, ◌&&◌, ◌||◌, not, Option, none, some,
  ◌>>=◌, ◌==◌, ltb, leb, if◌then◌else◌, length,
}
use wwos.Bytes.{Buffer}
use wwos.AvlTree.{AvlTree}
use wwos.Map
use wwos.Map.{MapKv}
use wwos.Wwfs.{is_negative}
use wwos.Nodes.{
  FdType, FdMode, is_directory, Nodes, read_shared_node, write_shared_node, get_shared_node_size,
  get_flattened_children,
}
use wwos.Nodes.Opening.{
  is_write, open_shared_file_node, close_shared_file_node, create_shared_file_node,
}

pub record FdInfo : Type 0 where
  pub node : ℕ
  pub mode : FdMode
  pub offset : ℕ

pub record FdStat : Type 0 where
  pub size : ℕ
  pub type : FdType

pub record Task : Type 0 where
  pub pid : ℕ
  pub has_return_value : Bool
  pub return_value : ℕ
  pub fd_counter : ℕ
  pub fds : AvlTree (MapKv FdInfo)

pub record Kernel : Type 0 where
  pub task : Task
  pub nodes : Nodes

-- `fd_info()`
abbrev pub no_info : FdInfo
no_info = record { node = 0; mode = FdMode.read_only; offset = 0 }

-- -n
abbrev pub minus : ℕ → ℕ
minus n = 2 ^ 64 - n

abbrev pub set_return_value : ℕ → Kernel → Kernel
set_return_value v k = record k {
  task = record k.task { has_return_value = true; return_value = v };
}

abbrev pub with_fds : AvlTree (MapKv FdInfo) → Kernel → Kernel
with_fds fds k = record k { task = record k.task { fds = fds } }

abbrev pub with_nodes : Nodes → Kernel → Kernel
with_nodes s k = record k { nodes = s }

abbrev pub has_fd : ℕ → Kernel → Bool
has_fd fd k = Map.contains no_info fd k.task.fds

abbrev pub get_fd : ℕ → Kernel → Option FdInfo
get_fd fd k = Map.get no_info fd k.task.fds

-- What a reference into the map has changed.
abbrev pub set_offset : ℕ → FdInfo → ℕ → Kernel → Option Kernel
set_offset fd info offset k =
    Map.update no_info fd (record info { offset = offset }) k.task.fds
    >>= (λ fds. some (with_fds fds k))

-- The descriptor for a node that was opened.
abbrev pub add_fd : ℕ → FdMode → Kernel → Option Kernel
add_fd sfn mode k =
    let fd = k.task.fd_counter in
    Map.insert no_info fd (record { node = sfn; mode = mode; offset = 0 }) k.task.fds >>= (λ fds.
      some (
        set_return_value fd
          (record k { task = record k.task { fd_counter = (fd + 1) % 2 ^ 64; fds = fds } })))

-- Behind the test for the descriptor.
pub read_by : ℕ → FdInfo → Buffer → ℕ → Kernel → Option (Buffer × Kernel)
read_by fd info buffer size k =
    if is_write info.mode
    then some (buffer, set_return_value (minus 3) k)
    else if is_directory (k.nodes.node info.node).type
    then some (buffer, set_return_value (minus 4) k)
    else read_shared_node info.node k.nodes buffer info.offset size >>= (λ r.
      set_offset fd info ((info.offset + r.0) % 2 ^ 64) (with_nodes r.2 k)
      >>= (λ k'. some (r.1, set_return_value r.0 k')))

pub write_by : ℕ → FdInfo → Buffer → ℕ → Kernel → Option Kernel
write_by fd info buffer size k =
    if is_write info.mode
    then write_shared_node info.node k.nodes buffer info.offset size >>= (λ r.
      set_offset fd info ((info.offset + r.0) % 2 ^ 64) (with_nodes r.1 k)
      >>= (λ k'. some (set_return_value r.0 k')))
    else some (set_return_value (minus 3) k)

-- The size is only asked for where the offset is not negative.
pub current_task_seek : ℕ → ℕ → Kernel → Option Kernel
current_task_seek fd offset k =
    if has_fd fd k
    then get_fd fd k >>= (λ info.
      if is_negative offset
      then some (set_return_value (minus 2) k)
      else get_shared_node_size info.node k.nodes >>= (λ size.
        if leb size offset
        then some (set_return_value (minus 2) k)
        else set_offset fd info offset k >>= (λ k'. some (set_return_value 0 k'))))
    else some (set_return_value (minus 1) k)

-- The caller's `fd_stat`, where it is written.
pub current_task_stat : ℕ → FdStat → Kernel → Option (FdStat × Kernel)
current_task_stat fd stat k =
    if has_fd fd k
    then get_fd fd k >>= (λ info. get_shared_node_size info.node k.nodes >>= (λ size.
      some (record { size = size; type = (k.nodes.node info.node).type }, set_return_value 0 k)))
    else some (stat, set_return_value (minus 1) k)

pub current_task_close : ℕ → Kernel → Option Kernel
current_task_close fd k =
    if has_fd fd k
    then get_fd fd k >>= (λ info. close_shared_file_node k.task.pid info.node k.nodes >>= (λ r.
      Map.remove no_info fd k.task.fds
      >>= (λ fds. some (set_return_value 0 (with_fds fds (with_nodes r.1 k))))))
    else some (set_return_value (minus 1) k)

-- The loop of `current_task_exit` over the descriptors.
pub close_all : ℕ → List (ℕ × FdInfo) → Nodes → Option Nodes
close_all pid [] s = some s
close_all pid ((fd, info) ∷ items) s =
    close_shared_file_node pid info.node s >>= (λ r. close_all pid items r.1)

-- The calls of `receive_syscall` on files, with the addresses that their parameters hold and what
-- stands behind these.
pub data Request : Type 0 where
  fd_open : ℕ → ℕ → List ℕ → FdMode → Request
  fd_close : ℕ → Request
  fd_create : ℕ → List ℕ → FdType → Request
  fd_children : ℕ → ℕ → Buffer → ℕ → Request
  fd_read : ℕ → ℕ → Buffer → ℕ → Request
  fd_write : ℕ → ℕ → Buffer → ℕ → Request
  fd_seek : ℕ → ℕ → Request
  fd_stat : ℕ → ℕ → FdStat → Request

-- What a call leaves behind the user's pointer, and the state.
pub data Answer : Type 0 where
  unit : Kernel → Answer
  bytes : Buffer → Kernel → Answer
  stat : FdStat → Kernel → Answer

abbrev as_unit : Option Kernel → Option Answer
as_unit r = r >>= (λ k. some (unit k))

abbrev as_bytes : Option (Buffer × Kernel) → Option Answer
as_bytes r = r >>= (λ p. some (bytes p.0 p.1))

abbrev as_stat : Option (FdStat × Kernel) → Option Answer
as_stat r = r >>= (λ p. some (stat p.0 p.1))

-- The first address of the kernel's space is a number that the build sets.
module _ (ka_begin : ℕ) where
  pub check_pointer_validity : ℕ → ℕ → Bool
  check_pointer_validity va size =
      if leb ka_begin va then false else if leb ka_begin ((va + size) % 2 ^ 64) then false else true

  -- `fresh` is the address of the node that `open_shared_file_node` may allocate.
  pub current_task_open : ℕ → ℕ → List ℕ → FdMode → Kernel → Option Kernel
  unfolding check_pointer_validity
  current_task_open fresh address path mode k =
      if check_pointer_validity address (length path)
      then open_shared_file_node fresh k.task.pid path mode k.nodes >>= (λ r.
        if r.0 == 0
        then some (set_return_value (minus 1) (with_nodes r.1 k))
        else add_fd r.0 mode (with_nodes r.1 k))
      else some (set_return_value (minus 1) k)

  pub current_task_create : ℕ → List ℕ → FdType → Kernel → Option Kernel
  unfolding check_pointer_validity
  current_task_create address path type k =
      if check_pointer_validity address (length path)
      then create_shared_file_node path type k.nodes
        >>= (λ r. some (set_return_value (if r.0 then 0 else minus 1) (with_nodes r.1 k)))
      else some (set_return_value (minus 1) k)

  pub current_task_read : ℕ → ℕ → Buffer → ℕ → Kernel → Option (Buffer × Kernel)
  unfolding check_pointer_validity read_by
  current_task_read fd address buffer size k =
      if check_pointer_validity address size
      then (if has_fd fd k
          then get_fd fd k >>= (λ info. read_by fd info buffer size k)
          else some (buffer, set_return_value (minus 2) k))
      else some (buffer, set_return_value (minus 1) k)

  pub current_task_write : ℕ → ℕ → Buffer → ℕ → Kernel → Option Kernel
  unfolding check_pointer_validity write_by
  current_task_write fd address buffer size k =
      if check_pointer_validity address size
      then (if has_fd fd k
          then get_fd fd k >>= (λ info. write_by fd info buffer size k)
          else some (set_return_value (minus 2) k))
      else some (set_return_value (minus 1) k)

  unfoldable pub current_task_get_children : ℕ → ℕ → Buffer → ℕ → Kernel → Option (Buffer × Kernel)
  unfolding check_pointer_validity
  current_task_get_children fd address buffer size k =
      if check_pointer_validity address size
      then (if has_fd fd k
          then get_fd fd k >>= (λ info.
            if is_directory (k.nodes.node info.node).type
            then get_flattened_children info.node k.nodes buffer size
              >>= (λ r. some (r.1, set_return_value r.0 k))
            else some (buffer, set_return_value (minus 3) k))
          else some (buffer, set_return_value (minus 2) k))
      else some (buffer, set_return_value (minus 1) k)

  pub receive_syscall : Request → Kernel → Option Answer
  receive_syscall (fd_open fresh address path mode) k =
      if leb ka_begin address
      then some (unit (set_return_value (minus 1) k))
      else as_unit (current_task_open fresh address path mode k)
  receive_syscall (fd_close fd) k = as_unit (current_task_close fd k)
  receive_syscall (fd_create address path type) k =
      if leb ka_begin address
      then some (unit (set_return_value (minus 1) k))
      else as_unit (current_task_create address path type k)
  receive_syscall (fd_children fd address buffer size) k =
      if leb ka_begin address
      then some (bytes buffer (set_return_value (minus 1) k))
      else as_bytes (current_task_get_children fd address buffer size k)
  receive_syscall (fd_read fd address buffer size) k =
      if leb ka_begin address
      then some (bytes buffer (set_return_value (minus 1) k))
      else as_bytes (current_task_read fd address buffer size k)
  receive_syscall (fd_write fd address buffer size) k =
      if leb ka_begin address
      then some (unit (set_return_value (minus 1) k))
      else as_unit (current_task_write fd address buffer size k)
  receive_syscall (fd_seek fd offset) k = as_unit (current_task_seek fd offset k)
  receive_syscall (fd_stat fd address s) k =
      if leb ka_begin address
      then some (stat s (set_return_value (minus 1) k))
      else as_stat (current_task_stat fd s k)
