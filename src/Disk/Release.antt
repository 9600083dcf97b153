-- ===== src/Disk/Release.antt =====
-- libwwos/wwfs.cc: the numbers that are given back to a bitmap.
use mathlib.Core.Path.{fun_ext}
use native.Mathlib.Nat.{div-add-mod, mod-lt, add-mul-div_right, one-le-pow, div-lt_iff_lt-mul}
use wwos.Prelude.{
  ℕ, ◌+◌, ◌-◌, ◌*◌, ◌/◌, ◌%◌, ◌^◌, ◌≤◌, ◌<◌, ◌≡◌, ◌≢◌, inl, inr, refl, sym, ap, ap₂, subst, ◌∙◌,
  arith, true, false, none, some, ◌==◌, ==_true, ==_eq, ==_ne, Option, ◌>>=◌, Bool-cases,
}
use wwos.Bytes.{Buffer, zeros, put}
use wwos.Bytes.Copies.{put-block_write}
use wwos.Disk.{
  FileSystem, with_hw, test_bit, set_bit, clear_bit, release, allocate_block, deallocate_block,
}
use wwos.Disk.Blocks.{read_lem, write_lem}
use wwos.Disk.Bitmap.{
  is_taken, with_byte, marked, taken_from, HasBlocks, buffer_of, buffer_of-lem,
  allocate_block-eq-first_clear,
}
use wwos.Disk.Search.{first_clear, first_clear-clear, first_clear-lt}

release_lem :
    (fs : FileSystem) (first k : ℕ)
    → fs.hw.block_size ≡ fs.meta.block_size
    → 0 < fs.meta.block_size
    → first + k / (fs.meta.block_size * 8) < fs.hw.block_count
    → release first k fs
      ≡ some (
          with_byte fs first k
            (clear_bit (fs.hw.memory (first * fs.hw.block_size + k / 8)) (k % 8)))
unfolding release
release_lem fs first k h z c =
    let bs = fs.meta.block_size in
    let s = fs.hw.block_size in
    let q = k / (bs * 8) in
    let r = k % (bs * 8) in
    let whole : bs * 8 * q + r ≡ k = div-add-mod k (bs * 8) in
    let small : r < bs * 8 = mod-lt k (omega (arith, z)) in
    let g : ◌≡◌ {A = ℕ} (q * s) (q * bs) = ap (λ (t : ℕ). q * t) h in
    let b = buffer_of fs (first + q) in
    let byte : b (r / 8) ≡ fs.hw.memory (first * s + k / 8) =
      buffer_of-lem fs first q (r / 8) (k / 8) (omega (arith, h, small))
        (omega (arith, g, whole)) in
    rw (read_lem fs.hw (first + q) zeros 0 c, ◌>>=◌)
      (rw (write_lem fs.hw (first + q) (put b (r / 8) (clear_bit (b (r / 8)) (r % 8))) 0 c, ◌>>=◌)
        (ap (λ m. some (with_hw fs (record fs.hw { memory = m })))
          (put-block_write fs.hw.memory ((first + q) * s) s (r / 8) (clear_bit (b (r / 8)) (r % 8))
              (omega (arith, h, small))
            ∙ ap₂ (put fs.hw.memory) (omega (arith, g, whole))
                (ap₂ clear_bit byte (omega (arith, whole))))))

bit_becomes_set : (v p : ℕ) → 0 < p → (v / p % 2 == 1) ≡ false → ((v + p) / p % 2 == 1) ≡ true
bit_becomes_set v p z e =
    let f = ==_ne (v / p % 2) 1 e in
    let g : (v + p) / p ≡ v / p + 1 =
      ap (λ (t : ℕ). (v + t) / p) (omega arith) ∙ add-mul-div_right v 1 {z = p} z in
    ==_true ((v + p) / p % 2) 1 (omega (arith, g, f))

clear_bit-set_bit : (v j : ℕ) → test_bit v j ≡ false → clear_bit (set_bit v j) j ≡ v
clear_bit-set_bit v j e =
    rw (e, bit_becomes_set v (2 ^ j) (one-le-pow j 2 (omega arith)) e) (omega arith)

put-put : (b : Buffer) (o v w : ℕ) → w ≡ b o → put (put b o v) o w ≡ b
put-put b o v w e =
    fun_ext (λ i. elim (Bool-cases (o == i)) [
      | inl u ↦ rw u (e ∙ ap b (==_eq o i u))
      | inr u ↦ rw u refl
    ])

some_pair :
    (a : ℕ) (x : FileSystem) (b : ℕ) (y : FileSystem)
    → ◌≡◌ {A = Option (ℕ × FileSystem)} (some (a, x)) (some (b, y))
    → (a ≡ b) × (x ≡ y)
some_pair a x b y e = (cc, cc)

release-marked :
    (fs : FileSystem) (first k : ℕ)
    → fs.hw.block_size ≡ fs.meta.block_size
    → 0 < fs.meta.block_size
    → first + k / (fs.meta.block_size * 8) < fs.hw.block_count
    → is_taken fs first k ≡ false
    → release first k (marked fs first k) ≡ some fs
release-marked fs first k h z c e =
    let a = first * fs.hw.block_size + k / 8 in
    let v = fs.hw.memory a in
    release_lem (marked fs first k) first k h z c
    ∙ ap (λ m. some (with_hw fs (record fs.hw { memory = m })))
        (put-put fs.hw.memory a (set_bit v (k % 8))
          (clear_bit ((marked fs first k).hw.memory a) (k % 8))
          (rw (==_true a a refl) (clear_bit-set_bit v (k % 8) e)))

-- A block that `allocate_block` gives is given back by `deallocate_block`: the disk is what it was.
-- The bitmap stands inside the memory, and the number given is not -1.
deallocate_block-allocate_block :
    (fs : FileSystem) (k : ℕ) (fs' : FileSystem)
    → fs.bid_bitmap_data ≤ fs.bid_inodes
    → HasBlocks fs fs.bid_bitmap_data (fs.bid_inodes - fs.bid_bitmap_data)
    → 0 < fs.meta.block_size
    → allocate_block fs ≡ some (k, fs')
    → k ≢ 2 ^ 64 - 1
    → deallocate_block fs' k ≡ some fs
unfolding deallocate_block
deallocate_block-allocate_block fs k fs' l h z e n =
    found
      (first_clear ((fs.bid_inodes - fs.bid_bitmap_data) * fs.meta.block_size * 8) 0
        (is_taken fs fs.bid_bitmap_data))
      refl (sym (allocate_block-eq-first_clear fs l h) ∙ e)
  where
    first : ℕ
    first = fs.bid_bitmap_data

    bits : ℕ
    bits = (fs.bid_inodes - fs.bid_bitmap_data) * fs.meta.block_size * 8

    inside :
        (r : ℕ)
        → r < 0 + bits
        → fs.bid_bitmap_data + r / (fs.meta.block_size * 8) < fs.hw.block_count
    inside r p =
        let q : r / (fs.meta.block_size * 8) < fs.bid_inodes - fs.bid_bitmap_data =
          (div-lt_iff_lt-mul {k = fs.meta.block_size * 8} {x = r}
              {y = fs.bid_inodes - fs.bid_bitmap_data} (omega (arith, z))).1
            (omega (arith, p)) in
        omega (arith, q, h.1)

    found :
        (o : Option ℕ)
        → first_clear bits 0 (is_taken fs first) ≡ o
        → taken_from fs first o ≡ some (k, fs')
        → release fs'.bid_bitmap_data k fs' ≡ some fs
    found none f g = absurd (n (ground arith))
    found (some r) f g =
        let (u, v) = some_pair r (marked fs first r) k fs' g in
        subst (λ m. release fs'.bid_bitmap_data m fs' ≡ some fs) u
          (subst (λ (d : FileSystem). release d.bid_bitmap_data r d ≡ some fs) v
            (release-marked fs first r h.0 z
              (inside r (first_clear-lt bits 0 (is_taken fs first) r f))
              (first_clear-clear bits 0 (is_taken fs first) r f)))
