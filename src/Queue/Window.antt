-- ===== src/Queue/Window.antt =====
-- include/wwos/queue.h: a window of an array that goes round at its end, and indices modulo its size.
use native.Mathlib.Nat.{mod-add-mod, mod-eq_of_lt, mod-eq-sub-mod, add-zero, mod-lt}
use wwos.Prelude.{
  ℕ, zero, suc, ◌+◌, ◌-◌, ◌%◌, ◌≤◌, ◌<◌, ◌≡◌, ◌≢◌, refl, ◌∙◌, ap, List, [], ◌∷◌, ◌++◌, arith,
  length, get_or, set, get_or-set_self, get_or-set_ne, length-set, dec_lt,
}

-- An index below twice the size, brought back below the size.
pub wrap_once : (i cap : ℕ) → cap ≤ i → i < cap + cap → i % cap ≡ i - cap
wrap_once i cap p q =
    mod-eq-sub-mod {n = i} {m = cap} (omega arith)
    ∙ mod-eq_of_lt {n = i - cap} {m = cap} (omega arith)

add-mod-ne : (cap h k : ℕ) → h < cap → suc k < cap → (h + suc k) % cap ≢ h
add-mod-ne cap h k p q = elim (dec_lt (h + suc k) cap) [
  | yes u ↦ omega (arith, mod-eq_of_lt u)
  | no u ↦ omega (arith, wrap_once (h + suc k) cap (omega arith) (omega arith))
]

shift_mod : (cap h n : ℕ) → (h + suc n) % cap ≡ ((h + 1) % cap + n) % cap
shift_mod cap h n = rw mod-add-mod (ap (λ k. k % cap) (omega arith))

module _ {T : Type 0} (d : T) where
  -- The `n` elements from index `h` on; `d` stands for a read outside the array.
  abbrev pub window : List T → ℕ → ℕ → List T
  window buf h zero = []
  window buf h (suc n) = get_or buf h d ∷ window buf ((h + 1) % length buf) n

  pub length-window : (buf : List T) (h n : ℕ) → length (window buf h n) ≡ n
  length-window buf h zero = refl
  length-window buf h (suc n) = ap suc (length-window buf ((h + 1) % length buf) n)

  -- The last element of a window stands apart.
  pub window_last :
      (buf : List T) (h n : ℕ)
      → h < length buf
      → window buf h (suc n) ≡ window buf h n ++ (get_or buf ((h + n) % length buf) d ∷ [])
  window_last buf h zero p = rw (add-zero, mod-eq_of_lt p)
  window_last buf h (suc n) p = rw (shift_mod (length buf) h n) (
      ap (λ xs. get_or buf h d ∷ xs)
        (window_last buf ((h + 1) % length buf) n (mod-lt (h + 1) {m = length buf} (omega arith))))

  -- A write behind a window does not show in it.
  pub window-set_outside :
      (buf : List T) (x : T) (h n m i : ℕ)
      → h < length buf
      → n ≤ m
      → m < length buf
      → i ≡ (h + m) % length buf
      → window (set buf i x) h n ≡ window buf h n
  window-set_outside buf x h zero m i p q w e = refl
  window-set_outside buf x h (suc n) zero i p q w e = absurd (omega arith)
  window-set_outside buf x h (suc n) (suc m) i p q w e = rw (
    get_or-set_ne buf i h x d (rw e (add-mod-ne (length buf) h m p w)),
    length-set buf i x,
    window-set_outside buf x ((h + 1) % length buf) n m i
        (mod-lt (h + 1) {m = length buf} (omega arith)) (omega arith) (omega arith)
        (e ∙ shift_mod (length buf) h m),
  )

  -- A write just behind a window extends it.
  pub window-set_end :
      (buf : List T) (x : T) (h n i : ℕ)
      → h < length buf
      → n < length buf
      → i ≡ (h + n) % length buf
      → window (set buf i x) h (suc n) ≡ window buf h n ++ (x ∷ [])
  window-set_end buf x h n i p q e =
      let inside : i < length buf = rw e (mod-lt (h + n) {m = length buf} (omega arith)) in
      window_last (set buf i x) h n (rw (length-set buf i x) p)
      ∙ rw (length-set buf i x, window-set_outside buf x h n n i p (omega arith) q e, ← e)
          (ap (λ y. window buf h n ++ (y ∷ [])) (get_or-set_self buf i x d inside))
