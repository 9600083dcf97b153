-- ===== src/Disk/Bitmap.antt =====
-- libwwos/wwfs.cc: the numbers that are taken from a bitmap.
use wwos.Prelude.{
  ℕ, zero, suc, ◌+◌, ◌-◌, ◌*◌, ◌/◌, ◌%◌, ◌^◌, ◌≤◌, ◌<◌, ◌≡◌, refl, sym, ap, ap₂, ◌∙◌, arith, none,
  some, Option, ◌>>=◌, Bool,
}
use wwos.Bytes.{Buffer, zeros, put, copy}
use wwos.Bytes.Copies.{copy-inside, put-block_write}
use wwos.Disk.{FileSystem, write, with_hw, test_bit, set_bit, find_byte, find_block, allocate_block}
use wwos.Disk.Blocks.{read_lem, write_lem}
use wwos.Disk.Search.{
  first_clear, first_clear_add, first_clear_shift, bit, flat, moved, or_else,
  find_byte-eq-first_clear, find_byte-lt,
}

-- Bit `k` of the bitmap that starts at block `first`.
abbrev pub is_taken : FileSystem → ℕ → ℕ → Bool
is_taken fs first k = test_bit (fs.hw.memory (first * fs.hw.block_size + k / 8)) (k % 8)

-- The byte of bit `k` becomes `v`.
abbrev pub with_byte : FileSystem → ℕ → ℕ → ℕ → FileSystem
with_byte fs first k v =
    with_hw fs (record fs.hw { memory = put fs.hw.memory (first * fs.hw.block_size + k / 8) v })

abbrev pub marked : FileSystem → ℕ → ℕ → FileSystem
marked fs first k =
    with_byte fs first k (set_bit (fs.hw.memory (first * fs.hw.block_size + k / 8)) (k % 8))

-- What a search that finds the bit, or none, leads to.
abbrev pub taken_from : FileSystem → ℕ → Option ℕ → Option (ℕ × FileSystem)
taken_from fs first none = some (2 ^ 64 - 1, fs)
taken_from fs first (some k) = some (k, marked fs first k)

abbrev pub HasBlocks : FileSystem → ℕ → ℕ → Type 0
HasBlocks fs first n = (fs.hw.block_size ≡ fs.meta.block_size) × (first + n ≤ fs.hw.block_count)

abbrev pub buffer_of : FileSystem → ℕ → Buffer
buffer_of fs bid = copy fs.hw.memory (bid * fs.hw.block_size) zeros 0 fs.hw.block_size

pub buffer_of-lem :
    (fs : FileSystem) (first d i x : ℕ)
    → i < fs.hw.block_size
    → x ≡ d * fs.hw.block_size + i
    → buffer_of fs (first + d) i ≡ fs.hw.memory (first * fs.hw.block_size + x)
buffer_of-lem fs first d i x p e =
    copy-inside fs.hw.memory ((first + d) * fs.hw.block_size) zeros 0 fs.hw.block_size i
      (omega arith) (omega arith)
    ∙ ap fs.hw.memory (omega (arith, e))

-- The bits of one block.
in_block :
    (fs : FileSystem) (first d : ℕ)
    → fs.hw.block_size ≡ fs.meta.block_size
    → first_clear (fs.meta.block_size * 8) (d * fs.meta.block_size * 8) (is_taken fs first)
      ≡ moved
          (d * fs.meta.block_size * 8)
          (flat (find_byte fs.meta.block_size 0 (buffer_of fs (first + d))))
in_block fs first d h =
    ap (λ k. first_clear (fs.meta.block_size * 8) k (is_taken fs first)) (omega arith)
    ∙ first_clear_shift (fs.meta.block_size * 8) (d * fs.meta.block_size * 8) (0 * 8)
        (is_taken fs first) (bit (buffer_of fs (first + d)))
        (λ x p q.
          ap₂ test_bit
            (sym (
              buffer_of-lem fs first d (x / 8) ((d * fs.meta.block_size * 8 + x) / 8)
                (omega (arith, h, q)) (omega (arith, ap (λ (t : ℕ). d * t) h))))
            (omega arith))
    ∙ ap (moved (d * fs.meta.block_size * 8))
        (find_byte-eq-first_clear fs.meta.block_size 0 (buffer_of fs (first + d)))

-- The block is written with the bit set.
found_lem :
    (fs : FileSystem) (first d i j : ℕ)
    → fs.hw.block_size ≡ fs.meta.block_size
    → first + d < fs.hw.block_count
    → i < fs.meta.block_size
    → j < 8
    → (write fs.hw
          (first + d)
          (put (buffer_of fs (first + d)) i (set_bit (buffer_of fs (first + d) i) j))
          0
        >>= (λ hw. some ((first + d - first) * fs.meta.block_size * 8 + i * 8 + j, with_hw fs hw)))
      ≡ taken_from fs first (some (d * fs.meta.block_size * 8 + (i * 8 + j)))
found_lem fs first d i j h c p q =
    let bs = fs.meta.block_size in
    let s = fs.hw.block_size in
    let mem = fs.hw.memory in
    let k = d * bs * 8 + (i * 8 + j) in
    let b = buffer_of fs (first + d) in
    let g : ◌≡◌ {A = ℕ} (d * s) (d * bs) = ap (λ (t : ℕ). d * t) h in
    let byte : b i ≡ mem (first * s + k / 8) =
      buffer_of-lem fs first d i (k / 8) (omega (arith, h, p)) (omega (arith, g, q)) in
    let count : (first + d - first) ≡ d = omega arith in
    rw (write_lem fs.hw (first + d) (put b i (set_bit (b i) j)) 0 c, ◌>>=◌)
      (ap
          (λ m.
            some
              ((first + d - first) * bs * 8 + i * 8 + j, with_hw fs (record fs.hw { memory = m })))
          (put-block_write mem ((first + d) * s) s i (set_bit (b i) j) (omega (arith, h, p)))
        ∙ ap₂
            (λ a v. some (
              (first + d - first) * bs * 8 + i * 8 + j,
              with_hw fs (record fs.hw { memory = put mem a v }),
            ))
            (omega (arith, g, q)) (ap₂ set_bit byte (omega (arith, q)))
        ∙ ap (λ n. some (n, marked fs first k)) (rw count (omega arith)))

search_lem :
    (n d first : ℕ) (fs : FileSystem)
    → HasBlocks fs (first + d) n
    → find_block n (first + d) first fs
      ≡ taken_from fs first (
          first_clear (n * fs.meta.block_size * 8) (d * fs.meta.block_size * 8) (is_taken fs first))
unfolding find_block
search_lem zero d first fs h =
    let z : 0 * fs.meta.block_size * 8 ≡ 0 = omega arith in
    ap (λ m. taken_from fs first (first_clear m (d * fs.meta.block_size * 8) (is_taken fs first)))
      (sym z)
search_lem (suc n) d first fs h =
    rw (read_lem fs.hw (first + d) zeros 0 (omega (arith, h.1)), find_block)
      (outcome (find_byte fs.meta.block_size 0 (buffer_of fs (first + d))) refl (
        ap (λ b. find_block n b first fs) (omega arith)
        ∙ search_lem n (d + 1) first fs (h.0, omega (arith, h.1))
        ∙ ap₂ (λ m k. taken_from fs first (first_clear m k (is_taken fs first))) refl
            (omega arith)))
  where
    split :
        first_clear
          (suc n * fs.meta.block_size * 8)
          (d * fs.meta.block_size * 8)
          (is_taken fs first)
        ≡ or_else
            (moved
              (d * fs.meta.block_size * 8)
              (flat (find_byte fs.meta.block_size 0 (buffer_of fs (first + d)))))
            (first_clear
              (n * fs.meta.block_size * 8)
              (d * fs.meta.block_size * 8 + fs.meta.block_size * 8)
              (is_taken fs first))
    split =
        ap (λ m. first_clear m (d * fs.meta.block_size * 8) (is_taken fs first)) (omega arith)
        ∙ first_clear_add (fs.meta.block_size * 8) (n * fs.meta.block_size * 8)
            (d * fs.meta.block_size * 8) (is_taken fs first)
        ∙ ap
            (λ o. or_else o (
              first_clear (n * fs.meta.block_size * 8)
                (d * fs.meta.block_size * 8 + fs.meta.block_size * 8) (is_taken fs first)))
            (in_block fs first d h.0)

    outcome :
        (o : Option (ℕ × ℕ))
        → find_byte fs.meta.block_size 0 (buffer_of fs (first + d)) ≡ o
        → find_block n (first + d + 1) first fs
          ≡ taken_from fs first (
              first_clear
                (n * fs.meta.block_size * 8)
                (d * fs.meta.block_size * 8 + fs.meta.block_size * 8)
                (is_taken fs first))
        → elim o [
          | none ↦ find_block n (first + d + 1) first fs
          | some x ↦
              (write fs.hw
                  (first + d)
                  (put (buffer_of fs (first + d)) x.0 (set_bit (buffer_of fs (first + d) x.0) x.1))
                  0
                >>= (λ hw.
                    some (
                      (first + d - first) * fs.meta.block_size * 8 + x.0 * 8 + x.1,
                      with_hw fs hw,
                    )))
        ]
          ≡ taken_from fs first (
              first_clear
                (suc n * fs.meta.block_size * 8)
                (d * fs.meta.block_size * 8)
                (is_taken fs first))
    outcome none e ih = ih ∙ ap (taken_from fs first) (sym (rw e at split))
    outcome (some (i, j)) e ih =
        let (p, q) = find_byte-lt fs.meta.block_size 0 (buffer_of fs (first + d)) i j e in
        found_lem fs first d i j h.0 (omega (arith, h.1)) (omega (arith, p)) q
        ∙ ap (taken_from fs first) (sym (rw e at split))

-- `allocate_block` is one search through the bits of the bitmap in a row: it gives the first that is
-- clear, and sets it and nothing else of the memory; where all are set it gives -1 and sets nothing.
-- The bitmap stands inside the memory.
pub allocate_block-eq-first_clear :
    (fs : FileSystem)
    → fs.bid_bitmap_data ≤ fs.bid_inodes
    → HasBlocks fs fs.bid_bitmap_data (fs.bid_inodes - fs.bid_bitmap_data)
    → allocate_block fs
      ≡ taken_from fs fs.bid_bitmap_data (
          first_clear
            ((fs.bid_inodes - fs.bid_bitmap_data) * fs.meta.block_size * 8)
            0
            (is_taken fs fs.bid_bitmap_data))
unfolding allocate_block
allocate_block-eq-first_clear fs l h =
    let n = fs.bid_inodes - fs.bid_bitmap_data in
    ap (λ b. find_block n b fs.bid_bitmap_data fs) (omega arith)
    ∙ search_lem n 0 fs.bid_bitmap_data fs (h.0, omega (arith, h.1))
    ∙ ap
        (λ k.
          taken_from fs fs.bid_bitmap_data
            (first_clear (n * fs.meta.block_size * 8) k (is_taken fs fs.bid_bitmap_data)))
        (omega arith)
