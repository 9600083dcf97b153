-- ===== src/Wwfs/Written.antt =====
-- libwwos/wwfs.cc: the disk after one round of the loop of
-- `rw_inode_data_unaligned` that writes.
use native.Mathlib.Nat.{mod-lt}
use wwos.Prelude.{
  ℕ, ◌+◌, ◌-◌, ◌*◌, ◌/◌, ◌%◌, ◌≤◌, ◌<◌, ◌≡◌, ◌≢◌, inl, inr, refl, sym, ap, ◌∙◌, arith, List, none,
  some, ltb, ltb-true, ◌>>=◌, if◌then◌else◌, length, Bool, true, false, Bool-cases, ==_eq, ==_ne,
  ◌==◌, ◌&&◌, get_or, subst,
}
use wwos.Bytes.{Buffer, zeros, copy, load, in_range}
use wwos.Bytes.Copies.{
  in_range-lower, in_range-upper, in_range-outside, copy-inside, copy-outside, copy-congr,
}
use wwos.Disk.{FileSystem, Inode, with_hw, read_block, block_l1, blocks_l0}
use wwos.Disk.Blocks.{read_block_lem, block_apart}
use wwos.Wwfs.{begin_addr, get_blockid_of_inode}
use wwos.Wwfs.Content.{
  IsFile, content, place_lem, div_bounds, All-get_or, get_or_distinct, file_blocks-congr,
}
use wwos.Wwfs.Parts.{HasPart, number, start, amount}

-- The disk after a part is written.
abbrev pub after_part : FileSystem → List ℕ → ℕ → ℕ → ℕ → Buffer → FileSystem
after_part fs blocks offset size index buffer = with_hw fs (record fs.hw {
  memory =
      copy buffer (begin_addr offset fs.meta.block_size index - offset) fs.hw.memory
        (start fs blocks offset index) (amount offset size fs.meta.block_size index);
})

-- The other blocks are not touched.
other_block :
    (fs : FileSystem) (blocks : List ℕ) (offset size index : ℕ) (buffer : Buffer) (c x : ℕ)
    → fs.hw.block_size ≡ fs.meta.block_size
    → HasPart offset size fs.meta.block_size index
    → number blocks index ≢ c
    → x < fs.hw.block_size
    → (after_part fs blocks offset size index buffer).hw.memory
        ((fs.bid_data + c) * fs.hw.block_size + x)
      ≡ fs.hw.memory ((fs.bid_data + c) * fs.hw.block_size + x)
other_block fs blocks offset size index buffer c x e h n l =
    copy-outside buffer (begin_addr offset fs.meta.block_size index - offset) fs.hw.memory
      (start fs blocks offset index) (amount offset size fs.meta.block_size index)
      ((fs.bid_data + c) * fs.hw.block_size + x)
      (elim (block_apart (fs.bid_data + number blocks index) (fs.bid_data + c) fs.hw.block_size
        (λ f. n (omega (arith, f)))) [
          | inl p ↦ inr (omega (arith, p, h, e, l))
          | inr p ↦ inl (omega (arith, p, h, e, l))
        ])

same_numbers :
    (fs : FileSystem) (n : Inode) (blocks : List ℕ) (offset size index : ℕ) (buffer : Buffer)
    (j : ℕ)
    → IsFile fs n blocks
    → index < length blocks
    → HasPart offset size fs.meta.block_size index
    → j < 0 + length blocks
    → get_blockid_of_inode (after_part fs blocks offset size index buffer) n j
      ≡ get_blockid_of_inode fs n j
unfolding get_blockid_of_inode
same_numbers fs n blocks offset size index buffer j w l h p = elim w.apart [
  | inl q ↦ rw (ltb-true j 10 (omega (arith, p, q))) refl
  | inr q ↦
      let fs1 = after_part fs blocks offset size index buffer in
      let b = block_l1 n in
      let r : read_block fs1 b zeros 0 ≡ read_block fs b zeros 0 =
        read_block_lem fs1 b zeros 0 q.1 w.memory_end
        ∙ ap some (
            copy-congr fs1.hw.memory fs.hw.memory ((fs.bid_data + b) * fs.hw.block_size)
              ((fs.bid_data + b) * fs.hw.block_size) zeros 0 fs.hw.block_size
              (λ i s.
                other_block fs blocks offset size index buffer b i w.same_size h
                  (λ e. All-get_or (λ c. b ≢ c) blocks index 0 q.0 l (sym e)) s))
        ∙ sym (read_block_lem fs b zeros 0 q.1 w.memory_end) in
      ap
        (λ o.
          if ltb j 10
          then some (blocks_l0 n j)
          else if ltb j (10 + fs.meta.block_size / 8)
          then o >>= (λ buffer. some (load 8 buffer (8 * (j - 10))))
          else none)
        r
]

pub after_part-IsFile :
    (fs : FileSystem) (n : Inode) (blocks : List ℕ) (offset size index : ℕ) (buffer : Buffer)
    → IsFile fs n blocks
    → index < length blocks
    → HasPart offset size fs.meta.block_size index
    → IsFile (after_part fs blocks offset size index buffer) n blocks
after_part-IsFile fs n blocks offset size index buffer w l h = record {
  numbers =
      file_blocks-congr (length blocks) 0 fs (after_part fs blocks offset size index buffer) n
        (λ j p. same_numbers fs n blocks offset size index buffer j w l h p)
      ∙ w.numbers;
  same_size = w.same_size;
  some_size = w.some_size;
  memory_end = w.memory_end;
  distinct = w.distinct;
  inside = w.inside;
  apart = w.apart;
}

and_false : (b : Bool) → (b && false) ≡ false
and_false true = refl
and_false false = refl

ltb-lt : (a b : ℕ) → ltb a b ≡ true → a < b
ltb-lt a b h = ground arith

pub written :
    (fs : FileSystem) (n : Inode) (blocks : List ℕ) (offset size index p : ℕ) (buffer : Buffer)
    → IsFile fs n blocks
    → index < length blocks
    → HasPart offset size fs.meta.block_size index
    → content (after_part fs blocks offset size index buffer) blocks p ≡ (
        if in_range offset size p && (p / fs.meta.block_size == index)
        then buffer (p - offset)
        else content fs blocks p)
written fs n blocks offset size index p buffer w l h =
    elim (Bool-cases (p / fs.meta.block_size == index)) [
      | inl e ↦ here (==_eq (p / fs.meta.block_size) index e) e (in_range offset size p) refl
      | inr e ↦ there e (ltb (p / fs.meta.block_size) (length blocks)) refl
    ]
  where
    bs : ℕ
    bs = fs.meta.block_size

    here :
        p / fs.meta.block_size ≡ index
        → (p / fs.meta.block_size == index) ≡ true
        → (b : Bool) → in_range offset size p ≡ b
        → content (after_part fs blocks offset size index buffer) blocks p ≡ (
            if in_range offset size p && (p / fs.meta.block_size == index)
            then buffer (p - offset)
            else content fs blocks p)
    here q e true f =
        let b = subst (λ m. (m * bs ≤ p) × (p < m * bs + bs)) q (div_bounds p bs w.some_size) in
        let u = in_range-lower offset size p f in
        let v = in_range-upper offset size p f in
        let at = place_lem fs blocks p index q in
        rw (e, f, ltb-true (p / bs) (length blocks) (omega (arith, q, l)), at)
          (copy-inside buffer (begin_addr offset bs index - offset) fs.hw.memory
              (start fs blocks offset index) (amount offset size bs index)
              ((fs.bid_data + get_or blocks index 0) * fs.hw.block_size + (p - index * bs))
              (omega (arith, b, u, v, h)) (omega (arith, b, u, v, h))
            ∙ ap buffer (omega (arith, b, u, v, h)))
    here q e false f =
        let b = subst (λ m. (m * bs ≤ p) × (p < m * bs + bs)) q (div_bounds p bs w.some_size) in
        let at = place_lem fs blocks p index q in
        rw (e, f, ltb-true (p / bs) (length blocks) (omega (arith, q, l)), at)
          (copy-outside buffer (begin_addr offset bs index - offset) fs.hw.memory
            (start fs blocks offset index) (amount offset size bs index)
            ((fs.bid_data + get_or blocks index 0) * fs.hw.block_size + (p - index * bs))
            (elim (in_range-outside offset size p f) [
              | inl u ↦ inl (omega (arith, b, u, h))
              | inr u ↦ inr (omega (arith, b, u, h))
            ]))

    there :
        (p / fs.meta.block_size == index) ≡ false
        → (b : Bool) → ltb (p / fs.meta.block_size) (length blocks) ≡ b
        → content (after_part fs blocks offset size index buffer) blocks p ≡ (
            if in_range offset size p && (p / fs.meta.block_size == index)
            then buffer (p - offset)
            else content fs blocks p)
    there e true f =
        rw (e, f, and_false (in_range offset size p))
          (other_block fs blocks offset size index buffer (get_or blocks (p / bs) 0) (p % bs)
            w.same_size h
            (get_or_distinct blocks index (p / bs) 0 w.distinct l
              (ltb-lt (p / bs) (length blocks) f) (λ g. ==_ne (p / bs) index e (sym g)))
            (omega (arith, w.same_size, mod-lt p w.some_size)))
    there e false f = rw (e, f, and_false (in_range offset size p)) refl
