-- ===== src/Tables/Tests.antt =====
-- kernel/aarch64/memory.cc: a page in an address space that has none.
use wwos.Prelude.{ℕ, ◌+◌, ◌^◌, ◌≡◌, arith, [], ◌∷◌, ◌++◌, some}
use wwos.Tables.{Regime, Tables, set_page}
use wwos.Tables.Walk.{translate, path}
use wwos.Tables.Mapped.{outside, translate-set_page}

abbrev no_pages : Tables
no_pages = record { words = λ t i. 0; fresh = (2 ^ 40 + 8192) ∷ ((2 ^ 40 + 12288) ∷ []) }

translate-set_page_example :
    (s : Tables) × (set_page (2 ^ 40) (2 ^ 40 + 4096) Regime.user 4198400 1073741824 2 0 no_pages
      ≡ some s)
    × (translate (2 ^ 40) 4198400 2 (2 ^ 40 + 4096) s ≡ some 1073741824)
    × ((u j : ℕ)
        → outside (path (2 ^ 40) 4198400 2 (2 ^ 40 + 4096) no_pages ++ no_pages.fresh) s u j
          ≡ outside
              (path (2 ^ 40) 4198400 2 (2 ^ 40 + 4096) no_pages ++ no_pages.fresh)
              no_pages
              u
              j)
translate-set_page_example =
    translate-set_page (2 ^ 40) 4198400 1073741824 (2 ^ 40 + 4096) Regime.user no_pages
      (omega arith) (omega arith) (omega arith) (omega arith) (omega arith) tt (omega arith)
