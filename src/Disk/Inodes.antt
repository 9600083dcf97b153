-- ===== src/Disk/Inodes.antt =====
-- libwwos/wwfs.cc: an inode that is written, and the inodes that are read after it.
use wwos.Prelude.{
  ℕ, ◌+◌, ◌*◌, ◌<◌, ◌≡◌, inl, inr, refl, sym, ap, subst, dec_lt, ◌∙◌, arith, true, false, none,
  some, ltb, ltb-true, ◌==◌, ==_eq, ==_ne, ◌>>=◌, Bool-cases, if◌then◌else◌, Bool,
}
use wwos.Bytes.{zeros, copy}
use wwos.Bytes.Copies.{copy-block_read, copy-block_write, copy-congr, copy-inside, copy-outside}
use wwos.Disk.{FileSystem, Inode, read, inode_bid, inode_offset, with_hw, get_inode, set_inode}
use wwos.Disk.Blocks.{IsShaped, read_lem, write_lem, slot, slot_lem, inode_fits}

-- The 128 bytes of an inode.
abbrev pub bytes_of : Inode → Inode
bytes_of n = copy n 0 zeros 0 128

pub get_inode_lem :
    (fs : FileSystem) (units id : ℕ)
    → IsShaped fs units
    → get_inode fs id ≡ (
        if ltb (inode_bid fs id) fs.hw.block_count
        then some (copy fs.hw.memory (slot fs id) zeros 0 128)
        else none)
unfolding get_inode read
get_inode_lem fs units id w = elim (Bool-cases (ltb (inode_bid fs id) fs.hw.block_count)) [
  | inl e ↦ rw e (
      ap some (
        copy-block_read fs.hw.memory (inode_bid fs id * fs.hw.block_size) fs.hw.block_size
          (inode_offset fs id) zeros 0 128 (inode_fits fs units id w)
        ∙ ap (λ a. copy fs.hw.memory a zeros 0 128) (slot_lem fs units id w)))
  | inr e ↦ rw e refl
]

pub set_inode_lem :
    (fs : FileSystem) (units id : ℕ) (n : Inode)
    → IsShaped fs units
    → inode_bid fs id < fs.hw.block_count
    → set_inode fs id n
      ≡ some (with_hw fs (record fs.hw { memory = copy n 0 fs.hw.memory (slot fs id) 128 }))
unfolding set_inode
set_inode_lem fs units id n w h =
    rw (read_lem fs.hw (inode_bid fs id) zeros 0 h, ◌>>=◌)
      ((rw
        (
          write_lem fs.hw (inode_bid fs id)
              (copy n 0
                (copy fs.hw.memory (inode_bid fs id * fs.hw.block_size) zeros 0 fs.hw.block_size)
                (inode_offset fs id) 128)
              0 h,
          ◌>>=◌,
        )
        (ap (λ m. some (with_hw fs (record fs.hw { memory = m })))
          (copy-block_write n 0 fs.hw.memory (inode_bid fs id * fs.hw.block_size) fs.hw.block_size
              (inode_offset fs id) 128 (inode_fits fs units id w)
            ∙ ap (λ a. copy n 0 fs.hw.memory a 128) (slot_lem fs units id w)))))

-- After an inode of the disk is set, `get_inode` gives its 128 bytes for it, and for each other inode
-- what it gave before, a failed assertion included.
get_inode-set_inode :
    (fs : FileSystem) (units id : ℕ) (n : Inode)
    → IsShaped fs units
    → inode_bid fs id < fs.hw.block_count
    → (fs' : FileSystem) × (set_inode fs id n ≡ some fs')
      × ((j : ℕ) → get_inode fs' j ≡ (if id == j then some (bytes_of n) else get_inode fs j))
get_inode-set_inode fs units id n w h =
    (fs1, set_inode_lem fs units id n w h, λ j. read_back j (id == j) refl)
  where
    fs1 : FileSystem
    fs1 = with_hw fs (record fs.hw { memory = copy n 0 fs.hw.memory (slot fs id) 128 })

    w1 : IsShaped fs1 units
    w1 = record { some_units = w.some_units; meta_size = w.meta_size; hw_size = w.hw_size }

    read_back :
        (j : ℕ) (b : Bool)
        → (id == j) ≡ b
        → get_inode fs1 j ≡ (if id == j then some (bytes_of n) else get_inode fs j)
    read_back j true e =
        let p = ==_eq id j e in
        get_inode_lem fs1 units j w1
        ∙ rw
            (
              e,
              ltb-true (inode_bid fs j) fs.hw.block_count
                  (subst (λ k. inode_bid fs k < fs.hw.block_count) p h),
            )
            (ap some (
              copy-congr fs1.hw.memory n (slot fs j) 0 zeros 0 128 (λ i q.
                copy-inside n 0 fs.hw.memory (slot fs id) 128 (slot fs j + i) (omega (arith, p))
                  (omega (arith, p))
                ∙ ap n (omega (arith, p)))))
    read_back j false e =
        let p = ==_ne id j e in
        get_inode_lem fs1 units j w1
        ∙ rw e (
            ap (λ m. if ltb (inode_bid fs j) fs.hw.block_count then some m else none)
              (copy-congr fs1.hw.memory fs.hw.memory (slot fs j) (slot fs j) zeros 0 128 (λ i q.
                copy-outside n 0 fs.hw.memory (slot fs id) 128 (slot fs j + i) (elim (dec_lt id j) [
                  | yes u ↦ inr (omega arith)
                  | no u ↦ inl (omega (arith, u, p))
                ])))
            ∙ sym (get_inode_lem fs units j w))
