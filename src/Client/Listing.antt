-- ===== src/Client/Listing.antt =====
-- libwwos/syscall.cc, kernel/process.cc, kernel/filesystem.cc: a process lists a directory.
use wwos.Prelude.{
  ℕ, zero, suc, ◌+◌, ◌*◌, ◌^◌, ◌≤◌, ◌<◌, ◌≡◌, ◌≢◌, inl, inr, refl, ap, ◌∙◌, arith, List, [], ◌∷◌,
  true, Option, some, ◌>>=◌, ==_false, ltb, leb-false, ltb-true, ltb-false, if◌then◌else◌, length,
  All, dec_lt,
}
use wwos.Bytes.{Buffer, zeros}
use wwos.Directory
use wwos.Nodes.{FdType, flattened_size, get_flattened_children}
use wwos.Nodes.Children.{
  names_of, names_size-eq, flattened, flattened_lem, get_flattened_children_lem,
}
use wwos.Descriptors.{
  FdInfo, Kernel, current_task_get_children, check_pointer_validity, set_return_value,
}
use wwos.Descriptors.Open.{IsOpen, get_fd_lem, check_inside}
use wwos.Client.{parse_null_terminated_strings, retry, get_children}
use wwos.Client.Names.{IsListed, names_size, parse_lem}

-- The system call, as the kernel answers it for a buffer at this address.
pub ask : ℕ → ℕ → ℕ → Kernel → Buffer → ℕ → Option (ℕ × Buffer)
ask ka_begin fd address k buffer size =
    current_task_get_children ka_begin fd address buffer size k
    >>= (λ r. some (r.1.task.return_value, r.0))

-- A descriptor of a directory with these children.
pub record IsDirectory (fd : ℕ) (info : FdInfo) (es : List (List ℕ × ℕ)) (k : Kernel) : Type 0 where
  pub is_open : IsOpen fd info k
  pub there : info.node ≢ 0
  pub type : (k.nodes.node info.node).type ≡ FdType.directory
  pub children : Directory.get_children k.nodes.fs (k.nodes.node info.node).inode ≡ some es

answer_of : ℕ → List (List ℕ × ℕ) → Buffer → ℕ × Buffer
answer_of size es b =
    if ltb size (flattened_size es) then (flattened_size es, b) else (0, flattened size es b)

-- Behind the guards of the call.
passed :
    (ka_begin fd address size : ℕ) (b : Buffer) (info : FdInfo) (k : Kernel)
    → IsOpen fd info k
    → check_pointer_validity ka_begin address size ≡ true
    → (k.nodes.node info.node).type ≡ FdType.directory
    → current_task_get_children ka_begin fd address b size k ≡ (
        get_flattened_children info.node k.nodes b size
        >>= (λ r. some (r.1, set_return_value r.0 k)))
unfolding current_task_get_children
passed ka_begin fd address size b info k o c t =
    let (e, g) = get_fd_lem fd info k o in rw c (rw e (rw g (rw t refl)))

ask_lem :
    (ka_begin fd address size : ℕ) (b : Buffer) (info : FdInfo) (es : List (List ℕ × ℕ))
    (k : Kernel)
    → IsDirectory fd info es k
    → address + size < ka_begin
    → address + size < 2 ^ 64
    → ask ka_begin fd address k b size ≡ some (answer_of size es b)
unfolding ask answer_of
ask_lem ka_begin fd address size b info es k d h l =
    ap (λ o. o >>= (λ r. some (r.1.task.return_value, r.0)))
      (passed ka_begin fd address size b info k d.is_open (check_inside ka_begin address size h l)
          d.type
        ∙ ap (λ o. o >>= (λ r. some (r.1, set_return_value r.0 k)))
            (get_flattened_children_lem info.node size k.nodes b es d.there d.children))

length-names : (names : List (List ℕ)) → All IsListed names → 2 * length names ≤ names_size names
length-names [] a = omega arith
length-names (name ∷ names) a = omega (arith, length-names names a.1, a.0.some_size)

-- The names in the buffer that the kernel has filled.
parse_flattened :
    (size : ℕ) (es : List (List ℕ × ℕ)) (b : Buffer)
    → All IsListed (names_of es)
    → flattened_size es ≤ size
    → 0 < size
    → parse_null_terminated_strings size 0 size (flattened size es b) ≡ some (names_of es)
parse_flattened size es b a h p =
    let (s, z) = flattened_lem size es b in
    parse_lem (names_of es) size 0 size (flattened size es b) a
      (omega (arith, length-names (names_of es) a, names_size-eq es)) s
      (elim (dec_lt (flattened_size es) size) [
        | yes l ↦ inr (
          omega (arith, names_size-eq es),
          ap (flattened size es b) {x = 0 + names_size (names_of es)} {y = flattened_size es}
                (omega (arith, names_size-eq es))
              ∙ (rw (ltb-true (flattened_size es) size l) at z),
        )
        | no n ↦ inl (omega (arith, names_size-eq es))
      ])

retry_done :
    (syscall : Buffer → ℕ → Option (ℕ × Buffer)) (fuel size : ℕ) (b : Buffer)
    (names : List (List ℕ))
    → parse_null_terminated_strings size 0 size b ≡ some names
    → retry syscall fuel 0 b size ≡ some (0, names)
unfolding retry
retry_done syscall zero size b names e = rw e refl
retry_done syscall (suc fuel) size b names e = rw e refl

retry_more :
    (syscall : Buffer → ℕ → Option (ℕ × Buffer)) (fuel ret size : ℕ) (b : Buffer)
    → 0 < ret
    → ret < 2 ^ 63
    → retry syscall (suc fuel) ret b size
      ≡ (syscall zeros ret >>= (λ r. retry syscall fuel r.0 r.1 ret))
unfolding retry
retry_more syscall fuel ret size b p l =
    rw (leb-false (2 ^ 63) ret l) (rw (==_false ret 0 (omega arith)) refl)

first_call :
    (syscall : Buffer → ℕ → Option (ℕ × Buffer)) (r : ℕ × Buffer)
    → syscall zeros 4096 ≡ some r
    → get_children syscall ≡ retry syscall 999 r.0 r.1 4096
unfolding get_children
first_call syscall r e = ap (λ o. o >>= (λ p. retry syscall 999 p.0 p.1 4096)) e

-- A process that lists a directory gets the names of its children, in their order, whether they fit
-- into its first buffer or it asks again with one of the size that the kernel tells. Each name has a
-- character and no zero, and the buffers end below the kernel's space and below 2^63.
pub get_children_lem :
    (ka_begin fd address : ℕ) (info : FdInfo) (es : List (List ℕ × ℕ)) (k : Kernel)
    → IsDirectory fd info es k
    → All IsListed (names_of es)
    → address + (4096 + flattened_size es) < ka_begin
    → address + (4096 + flattened_size es) < 2 ^ 63
    → get_children (ask ka_begin fd address k) ≡ some (0, names_of es)
unfolding answer_of
get_children_lem ka_begin fd address info es k d a h l = elim (dec_lt 4096 (flattened_size es)) [
  | no n ↦
      first_call (ask ka_begin fd address k) (0, flattened 4096 es zeros)
        (ask_lem ka_begin fd address 4096 zeros info es k d (omega arith) (omega arith)
          ∙ ap some (fits 4096 (omega (arith, n))))
      ∙ retry_done (ask ka_begin fd address k) 999 4096 (flattened 4096 es zeros) (names_of es)
          (parse_flattened 4096 es zeros a (omega (arith, n)) (omega arith))
  | yes m ↦
      first_call (ask ka_begin fd address k) (flattened_size es, zeros)
        (ask_lem ka_begin fd address 4096 zeros info es k d (omega arith) (omega arith)
          ∙ ap some (short m))
      ∙ retry_more (ask ka_begin fd address k) 998 (flattened_size es) 4096 zeros (omega (arith, m))
          (omega arith)
      ∙ ap (λ o. o >>= (λ r. retry (ask ka_begin fd address k) 998 r.0 r.1 (flattened_size es)))
          (ask_lem ka_begin fd address (flattened_size es) zeros info es k d (omega arith)
              (omega arith)
            ∙ ap some (fits (flattened_size es) (omega arith)))
      ∙ retry_done (ask ka_begin fd address k) 998 (flattened_size es)
          (flattened (flattened_size es) es zeros) (names_of es)
          (parse_flattened (flattened_size es) es zeros a (omega arith) (omega (arith, m)))
]
  where
    fits :
        (size : ℕ)
        → flattened_size es ≤ size
        → answer_of size es zeros ≡ (0, flattened size es zeros)
    fits size n = rw (ltb-false size (flattened_size es) n) refl

    short : 4096 < flattened_size es → answer_of 4096 es zeros ≡ (flattened_size es, zeros)
    short m = rw (ltb-true 4096 (flattened_size es) m) refl
