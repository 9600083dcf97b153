-- ===== src/Wwfs/Parts.antt =====
-- libwwos/wwfs.cc: one round of the loop of `rw_inode_data_unaligned`.
use wwos.Prelude.{
  ℕ, ◌+◌, ◌-◌, ◌*◌, ◌^◌, ◌≤◌, ◌<◌, ◌≡◌, inl, inr, ap, ap₂, ◌∙◌, arith, List, some, ◌>>=◌, length,
  get_or, min, true, Bool-cases, ==_eq, ◌==◌,
}
use wwos.Bytes.{Buffer, zeros, copy}
use wwos.Bytes.Copies.{copy-block_read, copy-block_write}
use wwos.Disk.{FileSystem, Inode, with_hw}
use wwos.Disk.Blocks.{IsInside, read_block_lem, write_block_lem}
use wwos.Wwfs.{
  get_blockid_of_inode, begin_addr, end_addr, is_whole, part_size, read_part, write_part,
}
use wwos.Wwfs.Content.{IsFile, All-get_or, file_blocks-get_or}

-- The block has bytes of those that are asked for.
abbrev pub HasPart : ℕ → ℕ → ℕ → ℕ → Type 0
HasPart offset size bs index =
    (index * bs < offset + size)
    × (offset < index * bs + bs)
    × (offset + size < 2 ^ 64)
    × (0 < size)

abbrev pub number : List ℕ → ℕ → ℕ
number blocks index = get_or blocks index 0

-- The address of the first byte that is asked for in the block, and how many are.
abbrev pub start : FileSystem → List ℕ → ℕ → ℕ → ℕ
start fs blocks offset index =
    (fs.bid_data + number blocks index) * fs.hw.block_size
    + (begin_addr offset fs.meta.block_size index - index * fs.meta.block_size)

abbrev pub amount : ℕ → ℕ → ℕ → ℕ → ℕ
amount offset size bs index = min (offset + size) ((index + 1) * bs) - begin_addr offset bs index

pub part_size_lem :
    (offset size bs index : ℕ)
    → HasPart offset size bs index
    → part_size offset size bs index ≡ amount offset size bs index
part_size_lem offset size bs index h = omega (arith, h)

whole_lem :
    (offset size bs index : ℕ)
    → HasPart offset size bs index
    → is_whole offset size bs index ≡ true
    → (begin_addr offset bs index ≡ index * bs) × (amount offset size bs index ≡ bs)
whole_lem offset size bs index h e = elim (Bool-cases (begin_addr offset bs index == index * bs)) [
  | inl f ↦
      let u = ==_eq (begin_addr offset bs index) (index * bs) f in
      let v = ==_eq (end_addr offset size bs index) ((index + 1) * bs) (rw f at e) in
      (u, omega (arith, u, v, h))
  | inr f ↦ absurd (let g = rw f at e in cc)
]

part_fits :
    (offset size bs index s : ℕ)
    → HasPart offset size bs index
    → s ≡ bs
    → begin_addr offset bs index - index * bs + part_size offset size bs index ≤ s
part_fits offset size bs index s h e = omega (arith, h, e, part_size_lem offset size bs index h)

-- Both branches of the round copy the same bytes to the caller's buffer.
pub read_part_lem :
    (fs : FileSystem) (n : Inode) (blocks : List ℕ) (offset size index : ℕ) (buffer : Buffer)
    → IsFile fs n blocks
    → index < length blocks
    → HasPart offset size fs.meta.block_size index
    → read_part fs n offset size index buffer
      ≡ some (
          copy fs.hw.memory
            (start fs blocks offset index)
            buffer
            (begin_addr offset fs.meta.block_size index - offset)
            (amount offset size fs.meta.block_size index))
unfolding read_part
read_part_lem fs n blocks offset size index buffer w l h =
    let bs = fs.meta.block_size in
    let b = number blocks index in
    let g : get_blockid_of_inode fs n index ≡ some b =
      ap (get_blockid_of_inode fs n) (omega arith)
      ∙ file_blocks-get_or blocks 0 fs n index w.numbers l in
    let i : IsInside fs b = All-get_or (IsInside fs) blocks index 0 w.inside l in
    elim (Bool-cases (is_whole offset size bs index)) [
      | inl e ↦
          let (u, v) = whole_lem offset size bs index h e in
          rw (g, e, ◌>>=◌)
            (read_block_lem fs b buffer (begin_addr offset bs index - offset) i w.memory_end
              ∙ ap₂
                  (λ a c. some (copy fs.hw.memory a buffer (begin_addr offset bs index - offset) c))
                  (omega (arith, u)) (omega (arith, v, w.same_size)))
      | inr e ↦
          rw (g, e, read_block_lem fs b zeros 0 i w.memory_end, ◌>>=◌)
            (ap some (
              copy-block_read fs.hw.memory ((fs.bid_data + b) * fs.hw.block_size) fs.hw.block_size
                (begin_addr offset bs index - index * bs) buffer
                (begin_addr offset bs index - offset) (part_size offset size bs index)
                (part_fits offset size bs index fs.hw.block_size h w.same_size)
              ∙ ap
                  (λ c.
                    copy fs.hw.memory (start fs blocks offset index) buffer
                      (begin_addr offset bs index - offset) c)
                  (part_size_lem offset size bs index h)))
    ]

pub write_part_lem :
    (fs : FileSystem) (n : Inode) (blocks : List ℕ) (offset size index : ℕ) (buffer : Buffer)
    → IsFile fs n blocks
    → index < length blocks
    → HasPart offset size fs.meta.block_size index
    → write_part fs n offset size index buffer
      ≡ some (
          with_hw fs (record fs.hw {
            memory =
                copy buffer
                  (begin_addr offset fs.meta.block_size index - offset)
                  fs.hw.memory
                  (start fs blocks offset index)
                  (amount offset size fs.meta.block_size index);
          }))
unfolding write_part
write_part_lem fs n blocks offset size index buffer w l h =
    let bs = fs.meta.block_size in
    let b = number blocks index in
    let g : get_blockid_of_inode fs n index ≡ some b =
      ap (get_blockid_of_inode fs n) (omega arith)
      ∙ file_blocks-get_or blocks 0 fs n index w.numbers l in
    let i : IsInside fs b = All-get_or (IsInside fs) blocks index 0 w.inside l in
    elim (Bool-cases (is_whole offset size bs index)) [
      | inl e ↦
          let (u, v) = whole_lem offset size bs index h e in
          rw (g, e, ◌>>=◌)
            (write_block_lem fs b buffer (begin_addr offset bs index - offset) i w.memory_end
              ∙ ap₂
                  (λ a c. some (
                    with_hw fs (record fs.hw {
                      memory = copy buffer (begin_addr offset bs index - offset) fs.hw.memory a c;
                    })))
                  (omega (arith, u)) (omega (arith, v, w.same_size)))
      | inr e ↦
          rw (g, e, read_block_lem fs b zeros 0 i w.memory_end, ◌>>=◌)
            (write_block_lem fs b
                (copy buffer (begin_addr offset bs index - offset)
                  (copy fs.hw.memory ((fs.bid_data + b) * fs.hw.block_size) zeros 0
                    fs.hw.block_size)
                  (begin_addr offset bs index - index * bs) (part_size offset size bs index))
                0 i w.memory_end
              ∙ ap (λ m. some (with_hw fs (record fs.hw { memory = m })))
                  (copy-block_write buffer (begin_addr offset bs index - offset) fs.hw.memory
                      ((fs.bid_data + b) * fs.hw.block_size) fs.hw.block_size
                      (begin_addr offset bs index - index * bs) (part_size offset size bs index)
                      (part_fits offset size bs index fs.hw.block_size h w.same_size)
                    ∙ ap
                        (λ c.
                          copy buffer (begin_addr offset bs index - offset) fs.hw.memory
                            (start fs blocks offset index) c)
                        (part_size_lem offset size bs index h)))
    ]
