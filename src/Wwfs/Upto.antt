-- ===== src/Wwfs/Upto.antt =====
-- libwwos/wwfs.cc: `read_data` from any place up to the end of a file, of any size.
use wwos.Prelude.{
  ℕ, ◌+◌, ◌-◌, ◌*◌, ◌^◌, ◌≤◌, ◌<◌, ◌≡◌, refl, ap, sym, ◌∙◌, arith, List, some, inr, if◌then◌else◌,
  length, min, dec_lt,
}
use wwos.Bytes.{Buffer, in_range}
use wwos.Bytes.Copies.{in_range-false}
use wwos.Disk.{FileSystem, Inode, InodeType, code, get_inode, size_of, type_of}
use wwos.Wwfs.{read_data}
use wwos.Wwfs.Content.{IsFile, content}
use wwos.Wwfs.Data.{read_data_lem, read_data_end}

-- What a read of `c` bytes leaves in the buffer.
abbrev pub IsRead : ℕ → ℕ → FileSystem → List ℕ → Buffer → Buffer → Type 0
IsRead offset c fs blocks buffer out =
    (i : ℕ) → out i ≡ (if in_range 0 c i then content fs blocks (offset + i) else buffer i)

nothing-IsRead :
    (c offset : ℕ) (fs : FileSystem) (blocks : List ℕ) (buffer : Buffer)
    → c ≡ 0
    → IsRead offset c fs blocks buffer buffer
nothing-IsRead c offset fs blocks buffer z i =
    rw z (rw (in_range-false 0 0 i (inr (omega arith))) refl)

nothing_asked :
    (fs : FileSystem) (id offset : ℕ) (buffer : Buffer)
    → read_data fs id offset 0 buffer ≡ some (0, buffer)
unfolding read_data
nothing_asked fs id offset buffer = refl

pub read_data_upto :
    (fs : FileSystem) (id offset size : ℕ) (buffer : Buffer) (n : Inode) (blocks : List ℕ)
    → id < 2 ^ 63
    → get_inode fs id ≡ some n
    → type_of n ≡ code InodeType.file
    → IsFile fs n blocks
    → size_of n ≤ length blocks * fs.meta.block_size
    → offset ≤ size_of n
    → size_of n + size < 2 ^ 64
    → (out : Buffer) × (read_data fs id offset size buffer
        ≡ some (min size (size_of n - offset), out))
      × IsRead offset (min size (size_of n - offset)) fs blocks buffer out
read_data_upto fs id offset size buffer n blocks g e t w l o u = elim (dec_lt 0 size) [
  | no q ↦
      let z : 0 ≡ size = omega arith in
      let c : min size (size_of n - offset) ≡ 0 = omega arith in
      (
        buffer,
        ap (λ k. read_data fs id offset k buffer) (sym z)
            ∙ nothing_asked fs id offset buffer
            ∙ ap (λ k. some (k, buffer)) (sym c),
        nothing-IsRead (min size (size_of n - offset)) offset fs blocks buffer c,
      )
  | yes q ↦ elim (dec_lt offset (size_of n)) [
    | yes p ↦
        read_data_lem fs id offset size buffer n blocks g q e t w l (omega arith) p (omega arith)
    | no p ↦
        let z : offset ≡ size_of n = omega arith in
        let c : min size (size_of n - offset) ≡ 0 = omega arith in
        (
          buffer,
          ap (λ k. read_data fs id k size buffer) z
              ∙ read_data_end fs id size buffer n g q e t u
              ∙ ap (λ k. some (k, buffer)) (sym c),
          nothing-IsRead (min size (size_of n - offset)) offset fs blocks buffer c,
        )
  ]
]
