-- ===== src/Bytes/Copies.antt =====
-- libwwos/wwfs.cc: a part of a block that is read through a buffer for the block, or written so.
use mathlib.Core.Path.{fun_ext}
use wwos.Prelude.{
  ℕ, zero, suc, ◌+◌, ◌-◌, ◌*◌, ◌≤◌, ◌<◌, ◌≡◌, ◌⊎◌, inl, inr, refl, sym, ap, ap₂, ◌∙◌, arith, Bool,
  true, false, Bool-cases, ==_true, ==_false, ==_eq, ==_ne, ◌==◌,
}
use wwos.Bytes.{Buffer, zeros, put, in_range, copy, load}

pub in_range-true : (o n i : ℕ) → o ≤ i → i < o + n → in_range o n i ≡ true
in_range-true o n i p q = ground arith

pub in_range-false : (o n i : ℕ) → (i < o) ⊎ (o + n ≤ i) → in_range o n i ≡ false
in_range-false o n i (inl p) = ground arith
in_range-false o n i (inr p) = ground arith

pub in_range-lower : (o n i : ℕ) → in_range o n i ≡ true → o ≤ i
in_range-lower o n i e = ground arith

pub in_range-upper : (o n i : ℕ) → in_range o n i ≡ true → i < o + n
in_range-upper o n i e = ground arith

pub in_range-outside : (o n i : ℕ) → in_range o n i ≡ false → (i < o) ⊎ (o + n ≤ i)
in_range-outside o n i e = ground arith

pub copy-inside :
    (src : Buffer) (from : ℕ) (dst : Buffer) (to n i : ℕ)
    → to ≤ i
    → i < to + n
    → copy src from dst to n i ≡ src (from + (i - to))
unfolding copy
copy-inside src from dst to n i p q = rw (in_range-true to n i p q)

pub copy-outside :
    (src : Buffer) (from : ℕ) (dst : Buffer) (to n i : ℕ)
    → (i < to) ⊎ (to + n ≤ i)
    → copy src from dst to n i ≡ dst i
unfolding copy
copy-outside src from dst to n i p = rw (in_range-false to n i p)

-- A copy depends only on the bytes that it takes.
pub copy-congr :
    (s t : Buffer) (p q : ℕ) (dst : Buffer) (to n : ℕ)
    → ((i : ℕ) → i < n → s (p + i) ≡ t (q + i))
    → copy s p dst to n ≡ copy t q dst to n
unfolding copy
copy-congr s t p q dst to n e = fun_ext (λ i. elim (Bool-cases (in_range to n i)) [
  | inl u ↦
      let a = in_range-lower to n i u in
      let b = in_range-upper to n i u in rw u (e (i - to) (omega arith))
  | inr u ↦ rw u refl
])

-- The part of a block behind a buffer that the block was read to.
pub copy-block_read :
    (mem : Buffer) (a s off : ℕ) (dst : Buffer) (at len : ℕ)
    → off + len ≤ s
    → copy (copy mem a zeros 0 s) off dst at len ≡ copy mem (a + off) dst at len
copy-block_read mem a s off dst at len h =
    copy-congr (copy mem a zeros 0 s) mem off (a + off) dst at len (λ i p.
      copy-inside mem a zeros 0 s (off + i) (omega arith) (omega arith) ∙ ap mem (omega arith))

-- A part of a block, written by reading the block, copying to the buffer and writing the block back.
pub copy-block_write :
    (src : Buffer) (from : ℕ) (mem : Buffer) (a s off len : ℕ)
    → off + len ≤ s
    → copy (copy src from (copy mem a zeros 0 s) off len) 0 mem a s
      ≡ copy src from mem (a + off) len
copy-block_write src from mem a s off len h = fun_ext (λ i. at i)
  where
    inside :
        (i : ℕ)
        → a ≤ i
        → i < a + s
        → (b : Bool) → in_range (a + off) len i ≡ b
        → copy src from (copy mem a zeros 0 s) off len (i - a) ≡ copy src from mem (a + off) len i
    inside i p q true e =
        let u = in_range-lower (a + off) len i e in
        let v = in_range-upper (a + off) len i e in
        copy-inside src from (copy mem a zeros 0 s) off len (i - a) (omega arith) (omega arith)
        ∙ ap src (omega arith)
        ∙ sym (copy-inside src from mem (a + off) len i u v)
    inside i p q false e =
        let u = in_range-outside (a + off) len i e in
        copy-outside src from (copy mem a zeros 0 s) off len (i - a)
          (elim u [ inl v ↦ inl (omega arith) | inr v ↦ inr (omega arith) ])
        ∙ copy-inside mem a zeros 0 s (i - a) (omega arith) (omega arith)
        ∙ ap mem (omega arith)
        ∙ sym (copy-outside src from mem (a + off) len i u)

    at :
        (i : ℕ)
        → copy (copy src from (copy mem a zeros 0 s) off len) 0 mem a s i
          ≡ copy src from mem (a + off) len i
    at i = elim (Bool-cases (in_range a s i)) [
      | inl e ↦
          let u = in_range-lower a s i e in
          let v = in_range-upper a s i e in
          copy-inside (copy src from (copy mem a zeros 0 s) off len) 0 mem a s i u v
          ∙ ap (copy src from (copy mem a zeros 0 s) off len) (omega arith)
          ∙ inside i u v (in_range (a + off) len i) refl
      | inr e ↦
          let u = in_range-outside a s i e in
          copy-outside (copy src from (copy mem a zeros 0 s) off len) 0 mem a s i u
          ∙ sym (
              copy-outside src from mem (a + off) len i
                (elim u [ inl v ↦ inl (omega arith) | inr v ↦ inr (omega arith) ]))
    ]

-- A byte of a block, written in the same way.
pub put-block_write :
    (mem : Buffer) (a s i v : ℕ)
    → i < s
    → copy (put (copy mem a zeros 0 s) i v) 0 mem a s ≡ put mem (a + i) v
put-block_write mem a s i v h = fun_ext (λ x. at x)
  where
    inside :
        (x : ℕ)
        → a ≤ x
        → x < a + s
        → (b : Bool) → (i == x - a) ≡ b
        → put (copy mem a zeros 0 s) i v (x - a) ≡ put mem (a + i) v x
    inside x p q true e =
        let f = ==_eq i (x - a) e in rw (e, ==_true (a + i) x (omega (arith, f))) refl
    inside x p q false e =
        let f = ==_ne i (x - a) e in
        rw (e, ==_false (a + i) x (λ g. f (omega (arith, g))))
          (copy-inside mem a zeros 0 s (x - a) (omega arith) (omega arith) ∙ ap mem (omega arith))

    at : (x : ℕ) → copy (put (copy mem a zeros 0 s) i v) 0 mem a s x ≡ put mem (a + i) v x
    at x = elim (Bool-cases (in_range a s x)) [
      | inl e ↦
          let u = in_range-lower a s x e in
          let w = in_range-upper a s x e in
          copy-inside (put (copy mem a zeros 0 s) i v) 0 mem a s x u w
          ∙ ap (put (copy mem a zeros 0 s) i v) (omega arith)
          ∙ inside x u w (i == x - a) refl
      | inr e ↦
          let u = in_range-outside a s x e in
          copy-outside (put (copy mem a zeros 0 s) i v) 0 mem a s x u
          ∙ sym (
              rw
                (==_false (a + i) x
                  (λ g. elim u [ inl w ↦ omega (arith, g) | inr w ↦ omega (arith, g) ]))
                refl)
    ]

-- A word of a block behind a buffer.
pub load-block_read :
    (mem : Buffer) (a s n off : ℕ)
    → off + n ≤ s
    → load n (copy mem a zeros 0 s) off ≡ load n mem (a + off)
unfolding load
load-block_read mem a s zero off h = refl
load-block_read mem a s (suc n) off h =
    ap₂ (λ (x y : ℕ). x + 256 * y)
      (copy-inside mem a zeros 0 s off (omega arith) (omega arith) ∙ ap mem (omega arith))
      (load-block_read mem a s n (off + 1) (omega arith) ∙ ap (load n mem) (omega arith))
