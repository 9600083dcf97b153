-- ===== src/Descriptors/Open.antt =====
-- kernel/process.cc: a descriptor that is open, and what the calls on it look up and change.
use wwos.Prelude.{ℕ, ◌+◌, ◌^◌, ◌<◌, ◌≡◌, refl, ap, ◌∙◌, arith, true, some, ==_true}
use wwos.Map.Laws
use wwos.Map.Laws.{get-eq-contents, update_refines_update}
use wwos.Descriptors.{FdInfo, Kernel, no_info, has_fd, get_fd, set_offset, check_pointer_validity}

pub record IsOpen (fd : ℕ) (info : FdInfo) (k : Kernel) : Type 0 where
  pub fds : Laws.IsValid k.task.fds
  pub held : Laws.contents fd k.task.fds ≡ some info

pub get_fd_lem :
    (fd : ℕ) (info : FdInfo) (k : Kernel)
    → IsOpen fd info k
    → (has_fd fd k ≡ true) × (get_fd fd k ≡ some info)
get_fd_lem fd info k o =
    let (g, c) = get-eq-contents no_info fd k.task.fds o.fds in
    (c ∙ ap Laws.is_some o.held, g ∙ o.held)

pub set_offset_lem :
    (fd offset : ℕ) (info : FdInfo) (k : Kernel)
    → IsOpen fd info k
    → (k' : Kernel) × (set_offset fd info offset k ≡ some k')
      × IsOpen fd (record info { offset = offset }) k'
      × (k'.nodes ≡ k.nodes)
set_offset_lem fd offset info k o =
    let (m, e, v, c) =
      update_refines_update no_info fd (record info { offset = offset }) k.task.fds o.fds o.held in
    (
      record k { task = record k.task { fds = m } },
      rw e refl,
      record { fds = v; held = c fd ∙ rw (==_true fd fd refl) refl },
      refl,
    )

-- A range that ends below the kernel's space.
pub check_inside :
    (ka_begin va size : ℕ)
    → va + size < ka_begin
    → va + size < 2 ^ 64
    → check_pointer_validity ka_begin va size ≡ true
unfolding check_pointer_validity
check_inside ka_begin va size h l = ground arith
