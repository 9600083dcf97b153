-- ===== src/Nodes/Opening.antt =====
-- kernel/filesystem.cc: how shared nodes come and go, `open_shared_file_node`,
-- `close_shared_file_node` and `create_shared_file_node`. A result `none` is as in Nodes.
pub mod Sharing
use wwos.Prelude.{
  ℕ, zero, suc, ◌+◌, ◌-◌, ◌/◌, ◌%◌, ◌^◌, List, [], ◌∷◌, ◌++◌, Bool, true, false, ◌&&◌, ◌||◌, not,
  Option, none, some, ◌>>=◌, ◌==◌, ltb, leb, if◌then◌else◌, length, map,
}
use wwos.Bytes.{Buffer, zeros, put, copy}
use wwos.AvlTree
use wwos.AvlTree.{AvlTree}
use wwos.Map
use wwos.Map.{MapKv}
use wwos.Queue
use wwos.Queue.{CycleQueue}
use wwos.Disk.{FileSystem, Hardware, InodeType, code, load_meta, required_size, initialize}
use wwos.Wwfs.{get_inode_type, get_inode_size, read_data, write_data, resize_inode, is_negative}
use wwos.Directory
use wwos.Directory.{chars}
use wwos.Paths.{get_inode, get_parent_path}
use wwos.Nodes.{
  FdType, FdMode, SharedFileNode, Nodes, is_fifo, is_file, is_directory, read_only, write_only,
  fifo_file, get_fifo, put_fifo, set_node,
}

pub init_fifo : ℕ → Nodes → Option Nodes
init_fifo sfn s =
    Map.insert fifo_file sfn fifo_file s.p_fifo >>= (λ m. some (record s { p_fifo = m }))

abbrev pub node_type : ℕ → FdType
node_type type =
    if type == code InodeType.directory
    then FdType.directory
    else if type == code InodeType.file
    then FdType.file
    else FdType.fifo

-- The reader or the writer, to its vector; a writer empties a file.
pub join : ℕ → FdMode → ℕ → Nodes → Option Nodes
join pid read_only sfn s =
    let n = s.node sfn in some (set_node sfn (record n { readers = n.readers ++ (pid ∷ []) }) s)
join pid write_only sfn s =
    let n = s.node sfn in
    let s' = set_node sfn (record n { writers = n.writers ++ (pid ∷ []) }) s in
    if is_file n.type
    then resize_inode s.fs n.inode 0 >>= (λ r. some (record s' { fs = r.1 }))
    else some s'

abbrev pub is_write : FdMode → Bool
is_write read_only = false
is_write write_only = true

-- The node that `new` returns at the address `fresh`.
pub open_new : ℕ → ℕ → ℕ → FdType → FdMode → Nodes → Option (ℕ × Nodes)
unfolding init_fifo join
open_new fresh pid inode type mode s =
    let n : SharedFileNode = record { inode = inode; type = type; readers = []; writers = [] } in
    let s0 = set_node fresh n s in
    (if is_fifo type then init_fifo fresh s0 else some s0) >>= (λ s1.
      join pid mode fresh s1 >>= (λ s2. Map.insert 0 inode fresh s2.p_inode_snode >>= (λ m.
        Map.insert 0 fresh inode s2.p_snode_inode
        >>= (λ m'. some (fresh, record s2 { p_inode_snode = m; p_snode_inode = m' })))))

abbrev pub open_old : ℕ → ℕ → FdMode → Nodes → Option (ℕ × Nodes)
open_old pid inode mode s =
    Map.get 0 inode s.p_inode_snode >>= (λ sfn. join pid mode sfn s >>= (λ s'. some (sfn, s')))

-- The pointer that it returns, and the state.
pub open_shared_file_node : ℕ → ℕ → List ℕ → FdMode → Nodes → Option (ℕ × Nodes)
unfolding open_new join
open_shared_file_node fresh pid path mode s = get_inode s.fs path >>= (λ inode.
    if is_negative inode
    then some (0, s)
    else get_inode_type s.fs inode >>= (λ type.
      if (type == code InodeType.directory) && is_write mode
      then some (0, s)
      else if Map.contains 0 inode s.p_inode_snode
      then open_old pid inode mode s
      else open_new fresh pid inode (node_type type) mode s))

abbrev pub has : ℕ → List ℕ → Bool
has pid [] = false
has pid (x ∷ xs) = (x == pid) || has pid xs

-- `erase` of what `find` found
abbrev pub erase : ℕ → List ℕ → List ℕ
erase pid [] = []
erase pid (x ∷ xs) = if x == pid then xs else x ∷ erase pid xs

abbrev pub is_empty : List ℕ → Bool
is_empty [] = true
is_empty (x ∷ xs) = false

abbrev pub has_bytes : ℕ → FdType → Nodes → Option Bool
has_bytes sfn type s =
    if is_fifo type then get_fifo sfn s >>= (λ q. some (ltb 0 q.m_size)) else some false

-- The node that no process has open.
pub drop_node : ℕ → FdType → Nodes → Option Nodes
drop_node sfn type s = Map.get 0 sfn s.p_snode_inode >>= (λ inode.
    Map.remove 0 inode s.p_inode_snode >>= (λ m. Map.remove 0 sfn s.p_snode_inode >>= (λ m'.
      (if is_fifo type then Map.remove fifo_file sfn s.p_fifo else some s.p_fifo)
      >>= (λ f. some (record s { p_inode_snode = m; p_snode_inode = m'; p_fifo = f })))))

pub close_shared_file_node : ℕ → ℕ → Nodes → Option (Bool × Nodes)
close_shared_file_node pid sfn s =
    let n = s.node sfn in
    let n' = record n { readers = erase pid n.readers; writers = erase pid n.writers } in
    let s' = set_node sfn n' s in
    let action = has pid n.readers || has pid n.writers in
    if sfn == 0
    then none
    else if is_empty n'.writers && is_empty n'.readers
    then has_bytes sfn n.type s' >>= (λ left.
      if left then some (false, s') else drop_node sfn n.type s' >>= (λ s''. some (action, s'')))
    else some (action, s')

abbrev pub inode_type : FdType → InodeType
inode_type FdType.directory = InodeType.directory
inode_type FdType.file = InodeType.file
inode_type FdType.fifo = InodeType.fifo

pub create_in : List ℕ → List ℕ → FdType → Nodes → Option (Bool × Nodes)
create_in parent_path name type s = get_inode s.fs parent_path >>= (λ parent.
    if is_negative parent
    then some (false, s)
    else get_inode_type s.fs parent >>= (λ parent_type.
      if parent_type == code InodeType.directory
      then Directory.create s.fs parent name (inode_type type)
        >>= (λ r. some (not (is_negative r.0), record s { fs = r.1 }))
      else some (false, s)))

abbrev pub is_rooted : List ℕ → Bool
is_rooted [] = false
is_rooted (c ∷ cs) = c == 47

pub create_shared_file_node : List ℕ → FdType → Nodes → Option (Bool × Nodes)
unfolding create_in
create_shared_file_node path type s =
    if is_rooted path
    then get_parent_path path
      >>= (λ p. elim p.0 [ [] ↦ some (false, s) | c ∷ cs ↦ create_in (c ∷ cs) p.1 type s ])
    else some (false, s)
