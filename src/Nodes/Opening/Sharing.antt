-- ===== src/Nodes/Opening/Sharing.antt =====
-- kernel/filesystem.cc: opening and closing shared nodes.
use wwos.Prelude.{
  ℕ, ◌^◌, ◌<◌, ◌≡◌, ◌≢◌, refl, sym, ap, ◌∙◌, List, [], ◌∷◌, ◌++◌, true, false, Option, none, some,
  ◌>>=◌, ◌==◌, ==_true, ==_false, ==_eq, leb-false, if◌then◌else◌, Bool-cases, inl, inr, and_false,
}
use wwos.Map
use wwos.Map.{MapKv}
use wwos.Map.Laws
use wwos.Map.Laws.{get-eq-contents, insert_refines_update, remove_refines_update}
use wwos.Disk.{FileSystem}
use wwos.Wwfs.{get_inode_type}
use wwos.Paths.{get_inode}
use wwos.Nodes.{FdType, FdMode, is_fifo, SharedFileNode, Nodes, set_node}
use wwos.Nodes.Opening.{
  node_type, join, open_new, open_shared_file_node, drop_node, close_shared_file_node,
}

-- The two maps between inodes and nodes are valid.
pub record IsMapped (s : Nodes) : Type 0 where
  pub inodes : Laws.IsValid s.p_inode_snode
  pub snodes : Laws.IsValid s.p_snode_inode

-- A path that leads to an inode of this type.
pub record Leads (fs : FileSystem) (path : List ℕ) (inode type : ℕ) : Type 0 where
  pub found : get_inode fs path ≡ some inode
  pub small : inode < 2 ^ 63
  pub type_is : get_inode_type fs inode ≡ some type

-- A node that only this process reads.
abbrev pub read_by : ℕ → ℕ → FdType → SharedFileNode
read_by pid inode type = record { inode = inode; type = type; readers = pid ∷ []; writers = [] }

open_absent :
    (fresh pid inode type : ℕ) (path : List ℕ) (s : Nodes)
    → Leads s.fs path inode type
    → Laws.IsValid s.p_inode_snode
    → Laws.contents inode s.p_inode_snode ≡ none
    → open_shared_file_node fresh pid path FdMode.read_only s
      ≡ open_new fresh pid inode (node_type type) FdMode.read_only s
unfolding open_shared_file_node
open_absent fresh pid inode type path s l v n =
    let absent : Map.contains 0 inode s.p_inode_snode ≡ false =
      (get-eq-contents 0 inode s.p_inode_snode v).1 ∙ ap Laws.is_some n in
    rw l.found (
      rw (leb-false (2 ^ 63) inode l.small)
        (rw l.type_is (rw (and_false (type == 0)) (rw absent refl))))

open_new_lem :
    (fresh pid inode : ℕ) (t : FdType) (s : Nodes)
    → is_fifo t ≡ false
    → IsMapped s
    → Laws.contents inode s.p_inode_snode ≡ none
    → Laws.contents fresh s.p_snode_inode ≡ none
    → (s' : Nodes) × (open_new fresh pid inode t FdMode.read_only s ≡ some (fresh, s'))
      × (s'.node fresh ≡ read_by pid inode t)
      × (s'.fs ≡ s.fs)
      × IsMapped s'
      × ((j : ℕ)
          → Laws.contents j s'.p_inode_snode
            ≡ (if inode == j then some fresh else Laws.contents j s.p_inode_snode))
      × ((j : ℕ)
          → Laws.contents j s'.p_snode_inode
            ≡ (if fresh == j then some inode else Laws.contents j s.p_snode_inode))
unfolding open_new join
open_new_lem fresh pid inode t s f v n m =
    let s0 = set_node fresh (record { inode = inode; type = t; readers = []; writers = [] }) s in
    let n1 = record (s0.node fresh) { readers = (s0.node fresh).readers ++ (pid ∷ []) } in
    let (a, e, va, da) = insert_refines_update 0 inode fresh s.p_inode_snode v.inodes n in
    let (b, g, vb, db) = insert_refines_update 0 fresh inode s.p_snode_inode v.snodes m in
    (
      record (set_node fresh n1 s0) { p_inode_snode = a; p_snode_inode = b },
      rw f (rw e (rw g refl)),
      rw (==_true fresh fresh refl) refl,
      refl,
      record { inodes = va; snodes = vb },
      da,
      db,
    )

drop_node_lem :
    (sfn inode : ℕ) (t : FdType) (s : Nodes)
    → is_fifo t ≡ false
    → IsMapped s
    → Laws.contents inode s.p_inode_snode ≡ some sfn
    → Laws.contents sfn s.p_snode_inode ≡ some inode
    → (s' : Nodes) × (drop_node sfn t s ≡ some s')
      × (s'.fs ≡ s.fs)
      × ((j : ℕ)
          → Laws.contents j s'.p_inode_snode
            ≡ (if inode == j then none else Laws.contents j s.p_inode_snode))
      × ((j : ℕ)
          → Laws.contents j s'.p_snode_inode
            ≡ (if sfn == j then none else Laws.contents j s.p_snode_inode))
      × IsMapped s'
unfolding drop_node
drop_node_lem sfn inode t s f v m n =
    let got = (get-eq-contents 0 sfn s.p_snode_inode v.snodes).0 ∙ n in
    let (a, e, va, da) = remove_refines_update 0 inode s.p_inode_snode v.inodes m in
    let (b, g, vb, db) = remove_refines_update 0 sfn s.p_snode_inode v.snodes n in
    (
      record s { p_inode_snode = a; p_snode_inode = b },
      rw got (rw e (rw g (rw f refl))),
      refl,
      da,
      db,
      record { inodes = va; snodes = vb },
    )

close_last :
    (pid sfn inode : ℕ) (t : FdType) (s s' : Nodes)
    → sfn ≢ 0
    → is_fifo t ≡ false
    → s.node sfn ≡ read_by pid inode t
    → drop_node sfn t
        (set_node sfn (record { inode = inode; type = t; readers = []; writers = [] }) s)
      ≡ some s'
    → close_shared_file_node pid sfn s ≡ some (true, s')
unfolding close_shared_file_node
close_last pid sfn inode t s s' z f e d =
    rw e (rw (==_true pid pid refl, ==_false sfn 0 z, f) (ap (λ o. o >>= (λ r. some (true, r))) d))

forget :
    (V : Type 0) (k j : ℕ) (x : V) (o : ℕ → Option V)
    → o k ≡ none
    → (if k == j then none else (if k == j then some x else o j)) ≡ o j
forget V k j x o e = elim (Bool-cases (k == j)) [
  | inl t ↦ rw t (sym (ap o {x = j} {y = k} (sym (==_eq k j t)) ∙ e))
  | inr n ↦ rw n refl
]

-- A process that opens for reading a file or a directory which no process has open gets a new shared
-- node of which it is the only reader; when it closes it again, the call returns `true`, and no inode
-- and no node is in the kernel's maps that was not there before, or missing from them. The new node's
-- address is not null and is not that of a node in use.
pub close-open :
    (fresh pid inode type : ℕ) (path : List ℕ) (s : Nodes)
    → Leads s.fs path inode type
    → is_fifo (node_type type) ≡ false
    → IsMapped s
    → Laws.contents inode s.p_inode_snode ≡ none
    → Laws.contents fresh s.p_snode_inode ≡ none
    → fresh ≢ 0
    → (s' : Nodes) × (s'' : Nodes) × (open_shared_file_node fresh pid path FdMode.read_only s
        ≡ some (fresh, s'))
      × (s'.node fresh ≡ read_by pid inode (node_type type))
      × (Laws.contents inode s'.p_inode_snode ≡ some fresh)
      × (close_shared_file_node pid fresh s' ≡ some (true, s''))
      × ((j : ℕ) → Laws.contents j s''.p_inode_snode ≡ Laws.contents j s.p_inode_snode)
      × ((j : ℕ) → Laws.contents j s''.p_snode_inode ≡ Laws.contents j s.p_snode_inode)
      × (s''.fs ≡ s.fs)
close-open fresh pid inode type path s l f v m n z =
    let t = node_type type in
    let (s', e, k, g, v', di, ds) = open_new_lem fresh pid inode t s f v m n in
    let hi = di inode ∙ rw (==_true inode inode refl) refl in
    let hs = ds fresh ∙ rw (==_true fresh fresh refl) refl in
    let left = set_node fresh (record { inode = inode; type = t; readers = []; writers = [] }) s' in
    let (s'', d, g', ci, cs, w) =
      drop_node_lem fresh inode t left f (record { inodes = v'.inodes; snodes = v'.snodes }) hi
        hs in
    (
      s',
      s'',
      open_absent fresh pid inode type path s l v.inodes m ∙ e,
      k,
      hi,
      close_last pid fresh inode t s' s'' z f k d,
      λ j.
          ci j
          ∙ ap (λ o. if inode == j then none else o) (di j)
          ∙ forget ℕ inode j fresh (λ i. Laws.contents i s.p_inode_snode) m,
      λ j.
          cs j
          ∙ ap (λ o. if fresh == j then none else o) (ds j)
          ∙ forget ℕ fresh j inode (λ i. Laws.contents i s.p_snode_inode) n,
      g' ∙ g,
    )
