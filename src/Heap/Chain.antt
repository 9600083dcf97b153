-- ===== src/Heap/Chain.antt =====
-- libwwos/alloc.cc: the free chunks between two pointers of the list, and what the loops over them find.
use wwos.Prelude.{
  ℕ, zero, suc, ◌+◌, ◌≤◌, ◌<◌, ◌≡◌, ◌≢◌, refl, sym, ◌∙◌, subst, arith, List, [], ◌∷◌, ◌++◌, true,
  false, ◌&&◌, not, some, ◌==◌, ==_true, ==_false, leb, ltb-true, ltb-false, length, All,
}
use wwos.Heap.{
  Allocator, size_at, next_at, set_size, set_next, plus, taken, find_from, link, link_from,
}

-- From the pointer `p` one comes through these chunks, each an address and a size, to `q`.
abbrev pub Leads : Allocator → ℕ → List (ℕ × ℕ) → ℕ → Type 0
Leads h p [] q = p ≡ q
Leads h p ((a, s) ∷ cs) q = (p ≡ a) × (a ≢ 0) × (size_at h a ≡ s) × Leads h (next_at h a) cs q

-- The chunks stand one behind the other from `lo` to `hi`, with a gap behind each.
abbrev pub IsApart : ℕ → List (ℕ × ℕ) → ℕ → Type 0
IsApart lo [] hi = lo ≤ hi
IsApart lo ((a, s) ∷ cs) hi = (lo ≤ a) × IsApart (a + 16 + s + 1) cs hi

-- The last of the chunks, and `prev` where there is none.
abbrev pub last : ℕ → List (ℕ × ℕ) → ℕ
last prev [] = prev
last prev ((a, s) ∷ cs) = last a cs

pub find_lem :
    (ps : List (ℕ × ℕ)) (fuel size align prev p c : ℕ) (h : Allocator)
    → Leads h p ps c
    → All (λ x. leb (taken x.0 size align) x.1 ≡ false) ps
    → c ≢ 0
    → leb (taken c size align) (size_at h c) ≡ true
    → length ps < fuel
    → find_from fuel h size align prev p ≡ some (last prev ps, c)
unfolding find_from
find_lem ps zero size align prev p c h l a z f u = absurd (omega arith)
find_lem [] (suc fuel) size align prev p c h l a z f u = rw l (rw (==_false c 0 z) (rw f refl))
find_lem ((b, s) ∷ ps) (suc fuel) size align prev p c h l a z f u = rw (l.0) (
    rw (==_false b 0 l.1) (
      rw (l.2)
        (rw a.0 (find_lem ps fuel size align b (next_at h b) c h l.3 a.1 z f (omega (arith, u))))))

pub last-le :
    (ps : List (ℕ × ℕ)) (prev lo hi : ℕ)
    → prev + 16 ≤ lo
    → IsApart lo ps hi
    → (last prev ps + 16 ≤ hi) × (prev ≤ last prev ps)
last-le [] prev lo hi l a = (omega arith, omega arith)
last-le ((b, s) ∷ ps) prev lo hi l a =
    let (x, y) = last-le ps b (b + 16 + s + 1) hi (omega arith) a.1 in (x, omega (arith, a.0, y))

pub link_lem :
    (ps : List (ℕ × ℕ)) (fuel prev p lo c q : ℕ) (h : Allocator)
    → Leads h p ps q
    → prev ≢ 0
    → prev + 16 ≤ lo
    → IsApart lo ps c
    → c < q
    → length ps < fuel
    → link_from fuel h prev c p ≡ link h (last prev ps) c q
unfolding link_from
link_lem ps zero prev p lo c q h l z g a o u = absurd (omega arith)
link_lem [] (suc fuel) prev p lo c q h l z g a o u =
    rw l (rw (==_false prev 0 z, ltb-true prev c (omega arith), ltb-true c q o) refl)
link_lem ((b, s) ∷ ps) (suc fuel) prev p lo c q h l z g a o u =
    let (x, y) = last-le ps b (b + 16 + s + 1) c (omega arith) a.1 in
    rw (l.0) (
      rw
        (
          ==_false prev 0 z,
          ltb-true prev c (omega (arith, a.0, x, y)),
          ltb-false c b (omega (arith, x, y)),
          ==_false b 0 l.1,
        )
        (link_lem ps fuel b (next_at h b) (b + 16 + s + 1) c q h l.3 l.1 (omega arith) a.1 o
          (omega (arith, u))))

-- The chunks below `c` in another memory that differs there only in the last chunk's pointer.
pub relink :
    (ps : List (ℕ × ℕ)) (prev lo c q q' : ℕ) (h h' : Allocator)
    → Leads h (next_at h prev) ps q
    → prev + 16 ≤ lo
    → IsApart lo ps c
    → ((x : ℕ) → x < c → x ≢ last prev ps + 8 → h'.words x ≡ h.words x)
    → h'.words (last prev ps + 8) ≡ q'
    → Leads h' (next_at h' prev) ps q'
relink [] prev lo c q q' h h' l g a e f = f
relink ((b, s) ∷ ps) prev lo c q q' h h' l g a e f =
    let (x, y) = last-le ps b (b + 16 + s + 1) c (omega arith) a.1 in
    (
      e (prev + 8) (omega (arith, a.0, x, y)) (omega (arith, a.0, y)) ∙ l.0,
      l.1,
      e b (omega (arith, x, y)) (omega (arith, y)) ∙ l.2,
      relink ps b (b + 16 + s + 1) c q q' h h' l.3 (omega arith) a.1 e f,
    )

-- The chunks from `lo` on in another memory that is the same there.
pub keep_above :
    (ps : List (ℕ × ℕ)) (lo hi p q : ℕ) (h h' : Allocator)
    → Leads h p ps q
    → IsApart lo ps hi
    → ((x : ℕ) → lo ≤ x → h'.words x ≡ h.words x)
    → Leads h' p ps q
keep_above [] lo hi p q h h' l a e = l
keep_above ((b, s) ∷ ps) lo hi p q h h' l a e = (
  l.0,
  l.1,
  e b a.0 ∙ l.2,
  keep_above ps (b + 16 + s + 1) hi (next_at h' b) q h h'
      (subst (λ n. Leads h n ps q) (sym (e (b + 8) (omega (arith, a.0)))) l.3) a.1
      (λ x z. e x (omega (arith, a.0, z))),
)

pub Leads-append :
    (ps qs : List (ℕ × ℕ)) (p q r : ℕ) (h : Allocator)
    → Leads h p ps q
    → Leads h q qs r
    → Leads h p (ps ++ qs) r
Leads-append [] qs p q r h l m = subst (λ n. Leads h n qs r) (sym l) m
Leads-append ((b, s) ∷ ps) qs p q r h l m =
    (l.0, l.1, l.2, Leads-append ps qs (next_at h b) q r h l.3 m)

-- A chunk that ends where the next begins, and does not touch the one before it, is made one with the
-- next.
pub link_next :
    (prev chunk current : ℕ) (h : Allocator)
    → plus (plus prev 16) (size_at h prev) ≤ chunk
    → ((plus (plus prev 16) (size_at h prev) == chunk) && not (prev == h.head)) ≡ false
    → plus (plus chunk 16) (size_at h chunk) ≡ current
    → current ≢ 0
    → link h prev chunk current
      ≡ some (
          set_next prev chunk (
            set_next chunk
              (next_at h current)
              (set_size chunk (plus (size_at h chunk) (plus 16 (size_at h current))) h)))
unfolding link
link_next prev chunk current h a b e z =
    rw
      (
        ltb-false chunk (plus (plus prev 16) (size_at h prev)) a,
        b,
        e,
        ltb-false current current (omega arith),
        ==_true current current refl,
        ==_false current 0 z,
      )
      refl
