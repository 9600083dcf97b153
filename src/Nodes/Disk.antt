-- ===== src/Nodes/Disk.antt =====
-- kernel/filesystem.cc: a shared node that stands for a file on the disk.
use wwos.Prelude.{
  ℕ, ◌-◌, ◌*◌, ◌^◌, ◌≤◌, ◌<◌, ◌≡◌, ◌≢◌, refl, ap, ◌∙◌, arith, List, some, ◌>>=◌, length, min,
  ==_false,
}
use wwos.Bytes.{Buffer}
use wwos.Disk.{Inode, InodeType, code, get_inode, size_of, type_of}
use wwos.Wwfs.{read_data}
use wwos.Wwfs.Content.{IsFile}
use wwos.Wwfs.Upto.{IsRead, read_data_upto}
use wwos.Nodes.{FdType, Nodes, read_shared_node}

-- The node at `sfn` stands for the file `n` in these blocks.
pub record IsDiskFile (s : Nodes) (sfn : ℕ) (n : Inode) (blocks : List ℕ) : Type 0 where
  pub there : sfn ≢ 0
  pub type : (s.node sfn).type ≡ FdType.file
  pub small : (s.node sfn).inode < 2 ^ 63
  pub got : get_inode s.fs (s.node sfn).inode ≡ some n
  pub is_file : type_of n ≡ code InodeType.file
  pub blocks_are : IsFile s.fs n blocks
  pub fits : size_of n ≤ length blocks * s.fs.meta.block_size
  pub bounded : size_of n < 2 ^ 63

at_file :
    (sfn offset size : ℕ) (buffer : Buffer) (s : Nodes)
    → sfn ≢ 0
    → (s.node sfn).type ≡ FdType.file
    → read_shared_node sfn s buffer offset size
      ≡ (read_data s.fs (s.node sfn).inode offset size buffer >>= (λ r. some (r.0, r.1, s)))
unfolding read_shared_node
at_file sfn offset size buffer s t e = rw (==_false sfn 0 t, e) refl

pub read_file_lem :
    (sfn offset size : ℕ) (buffer : Buffer) (s : Nodes) (n : Inode) (blocks : List ℕ)
    → IsDiskFile s sfn n blocks
    → offset ≤ size_of n
    → size < 2 ^ 63
    → (out : Buffer) × (read_shared_node sfn s buffer offset size
        ≡ some (min size (size_of n - offset), out, s))
      × IsRead offset (min size (size_of n - offset)) s.fs blocks buffer out
read_file_lem sfn offset size buffer s n blocks f o l =
    let (out, e, h) =
      read_data_upto s.fs (s.node sfn).inode offset size buffer n blocks f.small f.got f.is_file
        f.blocks_are f.fits o (omega (arith, f.bounded)) in
    (
      out,
      at_file sfn offset size buffer s f.there f.type ∙ ap (λ r. r >>= (λ r. some (r.0, r.1, s))) e,
      h,
    )
