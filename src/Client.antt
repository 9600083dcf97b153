-- ===== src/Client.antt =====
-- libwwos/syscall.cc: how a process asks for the names in a directory. The system call is a function
-- from the buffer that `new` returns and its size to what the call returns and the buffer that it
-- leaves. A result `none` is a failed `wwassert` or a read behind the buffer.
pub mod Names
pub mod Listing
mod Tests
use wwos.Prelude.{
  ℕ, zero, suc, ◌+◌, ◌-◌, List, [], ◌∷◌, true, false, Option, none, some, ◌>>=◌, ◌==◌, ltb,
  if◌then◌else◌, length,
}
use wwos.Bytes.{Buffer, zeros}
use wwos.Wwfs.{is_negative}
use wwos.Directory.{c_string}

-- The loop from the byte `i` on, with `fuel` rounds at most; it ends at an empty name.
pub parse_null_terminated_strings : ℕ → ℕ → ℕ → Buffer → Option (List (List ℕ))
parse_null_terminated_strings zero i size buffer = if ltb i size then none else some []
parse_null_terminated_strings (suc fuel) i size buffer =
    if ltb i size
    then c_string (size - i) i buffer >>= (λ name. elim name [
      | [] ↦ some []
      | c ∷ cs ↦
          parse_null_terminated_strings fuel (i + length (c ∷ cs) + 1) size buffer
          >>= (λ out. some ((c ∷ cs) ∷ out))
    ])
    else some []

-- Behind a call that has returned `ret`, with `fuel` calls to go.
pub retry : (Buffer → ℕ → Option (ℕ × Buffer)) → ℕ → ℕ → Buffer → ℕ → Option (ℕ × List (List ℕ))
retry syscall zero ret buffer size =
    if is_negative ret
    then some (ret, [])
    else if ret == 0
    then parse_null_terminated_strings size 0 size buffer >>= (λ out. some (0, out))
    else none
retry syscall (suc fuel) ret buffer size =
    if is_negative ret
    then some (ret, [])
    else if ret == 0
    then parse_null_terminated_strings size 0 size buffer >>= (λ out. some (0, out))
    else syscall zeros ret >>= (λ r. retry syscall fuel r.0 r.1 ret)

-- What it returns, and the names for the caller's vector. A name takes more than a byte, so `size`
-- rounds are enough.
pub get_children : (Buffer → ℕ → Option (ℕ × Buffer)) → Option (ℕ × List (List ℕ))
get_children syscall = syscall zeros 4096 >>= (λ r. retry syscall 999 r.0 r.1 4096)
