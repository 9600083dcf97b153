-- ===== src/Nodes.antt =====
-- kernel/filesystem.cc, kernel/filesystem.h: the open files that processes share. Pointers to nodes
-- are numbers, the null pointer is 0, and the object at a pointer is given by the function `node`. The
-- vectors of a node stand for the lists of their elements. A result `none` is a failed `wwassert` or
-- an access out of bounds.
pub mod Pipes
pub mod Fifo
pub mod Disk
pub mod Opening
pub mod Children
pub mod Sample
mod Tests
use wwos.Prelude.{
  ℕ, zero, suc, ◌+◌, ◌-◌, ◌/◌, ◌%◌, ◌^◌, List, [], ◌∷◌, ◌++◌, Bool, true, false, ◌&&◌, ◌||◌, not,
  Option, none, some, ◌>>=◌, ◌==◌, ltb, leb, if◌then◌else◌, length, map,
}
use wwos.Bytes.{Buffer, zeros, put, copy}
use wwos.AvlTree
use wwos.AvlTree.{AvlTree}
use wwos.Map
use wwos.Map.{MapKv}
use wwos.Queue
use wwos.Queue.{CycleQueue}
use wwos.Disk.{FileSystem, Hardware, InodeType, code, load_meta, required_size, initialize}
use wwos.Wwfs.{get_inode_type, get_inode_size, read_data, write_data, resize_inode, is_negative}
use wwos.Directory
use wwos.Directory.{chars}
use wwos.Paths.{get_inode, get_parent_path}

pub data FdType : Type 0 where
  file : FdType
  directory : FdType
  fifo : FdType

pub data FdMode : Type 0 where
  read_only : FdMode
  write_only : FdMode

abbrev pub is_fifo : FdType → Bool
is_fifo FdType.fifo = true
is_fifo FdType.file = false
is_fifo FdType.directory = false

abbrev pub is_file : FdType → Bool
is_file FdType.file = true
is_file FdType.fifo = false
is_file FdType.directory = false

abbrev pub is_directory : FdType → Bool
is_directory FdType.directory = true
is_directory FdType.file = false
is_directory FdType.fifo = false

pub record SharedFileNode : Type 0 where
  pub inode : ℕ
  pub type : FdType
  pub readers : List ℕ
  pub writers : List ℕ

-- The module's variables, and the shared nodes in the heap.
pub record Nodes : Type 0 where
  pub fs : FileSystem
  pub node : ℕ → SharedFileNode
  pub p_snode_inode : AvlTree (MapKv ℕ)
  pub p_inode_snode : AvlTree (MapKv ℕ)
  pub p_fifo : AvlTree (MapKv (CycleQueue ℕ))

pub fifo_size : ℕ
fifo_size = 2 ^ 20

-- `fifo_file()`
pub fifo_file : CycleQueue ℕ
fifo_file = Queue.new 0 fifo_size

abbrev pub get_fifo : ℕ → Nodes → Option (CycleQueue ℕ)
get_fifo sfn s = Map.get fifo_file sfn s.p_fifo

-- The queue that a reference into the map has changed.
abbrev pub put_fifo : ℕ → CycleQueue ℕ → Nodes → Option Nodes
put_fifo sfn q s = Map.update fifo_file sfn q s.p_fifo >>= (λ m. some (record s { p_fifo = m }))

abbrev pub set_node : ℕ → SharedFileNode → Nodes → Nodes
set_node sfn n s = record s { node = λ p. if p == sfn then n else s.node p }

-- The disk stands at `addr`, in a memory that is a buffer; the constructor reads no block.
pub initialize_filesystem : Buffer → ℕ → Option Nodes
initialize_filesystem disk size =
    let meta = load_meta disk in
    if ltb size 24
    then none
    else initialize (record {
      bid_meta = 0;
      bid_bitmap_inode = 0;
      bid_bitmap_data = 0;
      bid_inodes = 0;
      bid_data = 0;
      meta = meta;
      hw = record {
        memory = disk;
        block_size = meta.block_size;
        block_count = required_size meta / meta.block_size;
      };
      initialized = false;
    })
      >>= (λ fs. some (record {
        fs = fs;
        node = λ p. record { inode = 0; type = FdType.file; readers = []; writers = [] };
        p_snode_inode = AvlTree.new;
        p_inode_snode = AvlTree.new;
        p_fifo = AvlTree.new;
      }))

abbrev pub min : ℕ → ℕ → ℕ
min a b = if ltb a b then a else b

-- A byte that `pop` gave, to the buffer.
abbrev pub popped : ℕ → Buffer → Bool × Option ℕ × CycleQueue ℕ → Option (Buffer × CycleQueue ℕ)
popped i buffer (true, some x, q) = some (put buffer i x, q)
popped i buffer (true, none, q) = none
popped i buffer (false, x, q) = none

-- The loops that move `n` bytes, from the index `i` on.
pub pop_bytes : ℕ → ℕ → Buffer → CycleQueue ℕ → Option (Buffer × CycleQueue ℕ)
pop_bytes zero i buffer q = some (buffer, q)
pop_bytes (suc n) i buffer q = popped i buffer (Queue.pop q) >>= (λ r. pop_bytes n (i + 1) r.0 r.1)

pub push_bytes : ℕ → ℕ → Buffer → CycleQueue ℕ → Option (CycleQueue ℕ)
push_bytes zero i buffer q = some q
push_bytes (suc n) i buffer q =
    let rest = push_bytes n (i + 1) buffer (Queue.push (buffer i) q).1 in
    if (Queue.push (buffer i) q).0 then rest else none

-- The number of bytes, the caller's buffer, and the state.
pub read_fifo : ℕ → Nodes → Buffer → ℕ → Option (ℕ × Buffer × Nodes)
read_fifo sfn s buffer size = get_fifo sfn s >>= (λ q.
    pop_bytes (min q.m_size size) 0 buffer q
    >>= (λ r. put_fifo sfn r.1 s >>= (λ s'. some (min q.m_size size, r.0, s'))))

pub read_shared_node : ℕ → Nodes → Buffer → ℕ → ℕ → Option (ℕ × Buffer × Nodes)
unfolding read_fifo
read_shared_node sfn s buffer offset size =
    if sfn == 0
    then none
    else if is_fifo (s.node sfn).type
    then read_fifo sfn s buffer size
    else if is_directory (s.node sfn).type
    then some (0, buffer, s)
    else read_data s.fs (s.node sfn).inode offset size buffer >>= (λ r. some (r.0, r.1, s))

-- `FIFO_SIZE - fifo.fifo.size()`
abbrev pub fifo_room : CycleQueue ℕ → ℕ
fifo_room q = (fifo_size + 2 ^ 64 - q.m_size) % 2 ^ 64

pub write_fifo : ℕ → Nodes → Buffer → ℕ → Option (ℕ × Nodes)
write_fifo sfn s buffer size = get_fifo sfn s >>= (λ q.
    push_bytes (min (fifo_room q) size) 0 buffer q
    >>= (λ q'. put_fifo sfn q' s >>= (λ s'. some (min (fifo_room q) size, s'))))

pub write_shared_node : ℕ → Nodes → Buffer → ℕ → ℕ → Option (ℕ × Nodes)
unfolding write_fifo
write_shared_node sfn s buffer offset size =
    if sfn == 0
    then none
    else if is_fifo (s.node sfn).type
    then write_fifo sfn s buffer size
    else write_data s.fs (s.node sfn).inode offset size buffer
      >>= (λ r. some (r.0, record s { fs = r.1 }))

pub get_shared_node_size : ℕ → Nodes → Option ℕ
get_shared_node_size sfn s =
    if sfn == 0
    then none
    else if is_fifo (s.node sfn).type
    then get_fifo sfn s >>= (λ q. some q.m_size)
    else get_inode_size s.fs (s.node sfn).inode

pub get_children : ℕ → Nodes → Option (List (List ℕ × ℕ))
get_children parent s = if is_negative parent then none else Directory.get_children s.fs parent

-- The bytes of the names, with a zero behind each.
abbrev pub flattened_size : List (List ℕ × ℕ) → ℕ
flattened_size [] = 0
flattened_size ((name, id) ∷ children) = length name + 1 + flattened_size children

-- `memcpy` of a name to the index `i`, a zero behind it, and the names that follow.
pub flatten : ℕ → List (List ℕ × ℕ) → Buffer → Buffer
flatten i [] buffer = buffer
flatten i ((name, id) ∷ children) buffer =
    flatten (i + length name + 1) children
      (put (copy (chars name) 0 buffer i (length name)) (i + length name) 0)

-- The zeros from the index `i` on, `n` of them.
pub fill_zeros : ℕ → ℕ → Buffer → Buffer
fill_zeros zero i buffer = buffer
fill_zeros (suc n) i buffer = fill_zeros n (i + 1) (put buffer i 0)

-- 0, or the size that is required; and the caller's buffer.
pub get_flattened_children : ℕ → Nodes → Buffer → ℕ → Option (ℕ × Buffer)
unfolding flatten fill_zeros
get_flattened_children sfn s buffer size =
    if sfn == 0
    then none
    else Directory.get_children s.fs (s.node sfn).inode >>= (λ children.
      if ltb size (flattened_size children)
      then some (flattened_size children, buffer)
      else some (
        0,
        fill_zeros (size - flattened_size children) (flattened_size children)
            (flatten 0 children buffer),
      ))
