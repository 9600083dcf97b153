-- ===== src/Heap/Room.antt =====
-- libwwos/alloc.cc: the heap at each step while memory is cut from a chunk with room to spare, handed
-- out, and linked again.
use wwos.Prelude.{
  ℕ, ◌+◌, ◌^◌, ◌≤◌, ◌<◌, ◌≡◌, ◌≢◌, ◌⊎◌, refl, sym, ap, ap₂, subst, ◌∙◌, arith, List, ◌∷◌, ◌++◌,
  true, false, not, ◌&&◌, some, ◌==◌, ==_true, ==_false, ltb, leb, length, All, inl, inr, and_false,
}
use wwos.Heap.{
  Allocator, size_at, next_at, set_size, set_next, plus, minus, align_up, aligned_start, end_of,
  taken, find_chunk, take_chunk, hand_out, link, link_from,
}
use wwos.Heap.Chain.{
  Leads, IsApart, last, link_next, find_lem, last-le, link_lem, relink, keep_above, Leads-append,
}
use wwos.Heap.Cut.{align_up_lem, last_end, cut-below, cut-above, cut-cells}

-- The free chunks of a heap: `ps`, then one of `s` bytes at `c`, then `rest`. That chunk has room for
-- `size` bytes at a multiple of `align`, a power of two, and for a header and more behind them.
pub record HasRoom (ps : List (ℕ × ℕ)) (c s : ℕ) (rest : List (ℕ × ℕ)) (size align : ℕ)
    (h : Allocator) : Type 0 where
  pub top : ℕ
  pub some_head : h.head ≢ 0
  pub head_size : size_at h h.head ≡ 0
  pub before : Leads h (next_at h h.head) ps c
  pub there : c ≢ 0
  pub chunk_size : size_at h c ≡ s
  pub after : Leads h (next_at h c) rest 0
  pub apart : IsApart (h.head + 16) ps c
  pub apart_after : IsApart (c + 16 + s + 1) rest top
  pub power : ℕ
  pub align_is : align ≡ 2 ^ power
  pub power_bound : power < 64
  pub bound : c + 16 + s + align < 2 ^ 63
  pub size_bound : size < 2 ^ 63
  pub room : ltb (plus (taken c size align) 16) s ≡ true

lt_of : (a b : ℕ) → ltb a b ≡ true → a < b
lt_of a b h = ground arith

module _ (ps : List (ℕ × ℕ)) (c s : ℕ) (rest : List (ℕ × ℕ)) (size align : ℕ) (h : Allocator)
    (f : HasRoom ps c s rest size align h) where
  -- Where the chunk is cut.
  pub numbers :
      (c + 16 ≤ aligned_start c align)
      × (end_of c size align ≡ aligned_start c align + size)
      × (taken c size align + (c + 16) ≡ end_of c size align)
      × (taken c size align + 16 < s)
      × (minus (aligned_start c align) 16 + 16 ≡ aligned_start c align)
  numbers =
      let p : plus c 16 ≡ c + 16 = omega (arith, f.bound) in
      let (l, u) =
        subst (λ a. (plus c 16 ≤ align_up (plus c 16) a) × (align_up (plus c 16) a < plus c 16 + a))
          (sym f.align_is)
          (align_up_lem (plus c 16) f.power f.power_bound (omega (arith, f.bound, f.align_is))) in
      let e : end_of c size align ≡ aligned_start c align + size =
        omega (arith, f.bound, f.size_bound) in
      let t : taken c size align + (c + 16) ≡ end_of c size align =
        omega (arith, f.bound, f.size_bound) in
      let w : plus (taken c size align) 16 ≡ taken c size align + 16 =
        omega (arith, f.bound, f.size_bound) in
      (
        omega arith,
        e,
        t,
        omega (arith, w, lt_of (plus (taken c size align) 16) s f.room),
        omega (arith, f.bound),
      )

  abbrev pub prev : ℕ
  prev = last h.head ps

  abbrev pub rest_size : ℕ
  rest_size = minus (minus (size_at h c) (taken c size align)) 16

  abbrev pub header : ℕ
  header = minus (aligned_start c align) 16

  -- The heap with the chunk cut and its front handed out.
  abbrev pub given : Allocator
  given = hand_out c size align (
      set_next prev (end_of c size align)
        (set_next (end_of c size align) (next_at h c) (set_size (end_of c size align) rest_size h)))

  pub take_chunk_lem : hand_out c size align (take_chunk h prev c size align) ≡ given
  unfolding take_chunk
  take_chunk_lem =
      let room = ap (λ z. ltb (plus (taken c size align) 16) z) f.chunk_size ∙ f.room in
      rw room refl

  pub find_chunk_lem :
      (fuel : ℕ)
      → All (λ x. leb (taken x.0 size align) x.1 ≡ false) ps
      → length ps < fuel
      → find_chunk fuel h size align ≡ some (prev, c)
  unfolding find_chunk
  find_chunk_lem fuel a l =
      let (n, e, t, r, d) = numbers in
      find_lem ps fuel size align h.head (next_at h h.head) c h f.before a f.there
        (ap (leb (taken c size align)) f.chunk_size
          ∙ le_of (taken c size align) s (omega (arith, r)))
        l
    where
      le_of : (x y : ℕ) → x ≤ y → leb x y ≡ true
      le_of x y h = ground arith

  -- The heap when the chunk is about to be linked.
  abbrev pub returned : Allocator
  returned = set_size c (taken c size align) given

  below : (x : ℕ) → x < c → x ≢ prev + 8 → returned.words x ≡ h.words x
  below x l z =
      let (n, e, t, r, d) = numbers in
      rw (==_false c x (omega arith)) refl
      ∙ cut-below h.words c prev (end_of c size align) header (taken c size align) (next_at h c)
          rest_size (last-le ps h.head (h.head + 16) c (omega arith) f.apart).0
          (omega (arith, n, d)) (omega (arith, n, d, e)) x l z

  pub cells :
      (returned.words (prev + 8) ≡ end_of c size align)
      × (returned.words (end_of c size align + 8) ≡ next_at h c)
      × (returned.words (end_of c size align) ≡ rest_size)
      × (returned.words c ≡ taken c size align)
      × (given.words header ≡ taken c size align)
      × (given.words (header + 8) ≡ c)
  cells =
      let (n, e, t, r, d) = numbers in
      let b = (last-le ps h.head (h.head + 16) c (omega arith) f.apart).0 in
      let (u, v, w, y, z) =
        cut-cells h.words c prev (end_of c size align) header (taken c size align) (next_at h c)
          rest_size b (omega (arith, n, d)) (omega (arith, n, d, e)) in
      (
        rw (==_false c (prev + 8) (omega (arith, b))) refl ∙ u,
        rw (==_false c (end_of c size align + 8) (omega (arith, n, e))) refl ∙ v,
        rw (==_false c (end_of c size align) (omega (arith, n, e))) refl ∙ w,
        rw (==_true c c refl) refl,
        y,
        z,
      )

  -- The heap at the end.
  abbrev pub back : Allocator
  back = set_next prev c (
      set_next c (next_at returned (end_of c size align)) (
        set_size c (plus (size_at returned c) (plus 16 (size_at returned (end_of c size align))))
          returned))

  sum : plus (size_at returned c) (plus 16 (size_at returned (end_of c size align))) ≡ s
  sum =
      let (n, e, t, r, d) = numbers in
      let (u, v, w, y, z, q) = cells in
      ap₂ (λ (k l : ℕ). plus k (plus 16 l)) y w ∙ omega (arith, r, f.chunk_size, f.bound)

  linked : link returned prev c (end_of c size align) ≡ some back
  linked =
      let (n, e, t, r, d) = numbers in
      let (u, v, w, y, z, q) = cells in
      let (l, o) = last-le ps h.head (h.head + 16) c (omega arith) f.apart in
      let same : size_at returned prev ≡ size_at h prev =
        below prev (omega (arith, l)) (omega arith) in
      let (g, k) =
        last_end ps h.head (h.head + 16) c c h f.before (omega (arith, f.head_size)) f.apart in
      let end : plus (plus prev 16) (size_at returned prev) ≡ prev + 16 + size_at h prev =
        ap (plus (plus prev 16)) same ∙ omega (arith, g, f.bound) in
      link_next prev c (end_of c size align) returned (omega (arith, end, g))
        (apart_or_head (plus (plus prev 16) (size_at returned prev))
          (elim k [ inl m ↦ inl m | inr m ↦ inr (omega (arith, end, m)) ]))
        (ap (plus (plus c 16)) y ∙ omega (arith, t, f.bound, f.size_bound)) (omega (arith, n, e))
    where
      apart_or_head :
          (x : ℕ) → (prev ≡ h.head) ⊎ (x < c) → ((x == c) && not (prev == h.head)) ≡ false
      apart_or_head x (inl m) = rw (==_true prev h.head m) (and_false (x == c))
      apart_or_head x (inr m) = rw (==_false x c (omega arith)) refl

  pub link_from_lem :
      (fuel : ℕ)
      → length ps < fuel
      → link_from fuel returned h.head c (next_at returned h.head) ≡ some back
  link_from_lem fuel l =
      let (n, e, t, r, d) = numbers in
      link_lem ps fuel h.head (next_at returned h.head) (h.head + 16) c (end_of c size align)
        returned
        (relink ps h.head (h.head + 16) c c (end_of c size align) h returned f.before (omega arith)
          f.apart below cells.0)
        f.some_head (omega arith) f.apart (omega (arith, n, e)) l
      ∙ linked

  back_words : (x : ℕ) → x ≢ prev + 8 → x ≢ c + 8 → x ≢ c → back.words x ≡ returned.words x
  back_words x a b z =
      rw
        (
          ==_false (prev + 8) x (λ e. a (sym e)),
          ==_false (c + 8) x (λ e. b (sym e)),
          ==_false c x (λ e. z (sym e)),
        )
        refl

  pub back-Leads : Leads back (next_at back h.head) (ps ++ ((c, s) ∷ rest)) 0
  back-Leads =
      let (n, e, t, r, d) = numbers in
      let (l, o) = last-le ps h.head (h.head + 16) c (omega arith) f.apart in
      let (u, v, w, y, z, q) = cells in
      let next : next_at back c ≡ next_at h c =
        rw (==_false (prev + 8) (c + 8) (omega (arith, l)), ==_true (c + 8) (c + 8) refl) refl
        ∙ v in
      let above : (x : ℕ) → c + 16 + s + 1 ≤ x → back.words x ≡ h.words x = λ x k.
        back_words x (omega (arith, k, l)) (omega (arith, k)) (omega (arith, k))
        ∙ rw (==_false c x (omega (arith, k))) refl
        ∙ cut-above h.words c prev (end_of c size align) header (taken c size align) (next_at h c)
            rest_size l (omega (arith, n, d)) (omega (arith, n, d, e)) x (omega (arith, k, t, r)) in
      Leads-append ps ((c, s) ∷ rest) (next_at back h.head) c 0 back
        (relink ps h.head (h.head + 16) c c c h back f.before (omega arith) f.apart
          (λ x k m. back_words x m (omega (arith, k)) (omega (arith, k)) ∙ below x k m)
          (rw (==_true (prev + 8) (prev + 8) refl) refl))
        (
          refl,
          f.there,
          rw
                (
                  ==_false (prev + 8) c (omega (arith, l)),
                  ==_false (c + 8) c (omega arith),
                  ==_true c c refl,
                )
                refl
              ∙ sum,
          subst (λ p. Leads back p rest 0) (sym next)
              (keep_above rest (c + 16 + s + 1) f.top (next_at h c) 0 h back f.after f.apart_after
                above),
        )
