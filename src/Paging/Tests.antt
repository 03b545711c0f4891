-- ===== src/Paging/Tests.antt =====
-- Page tables at small inputs, and the theorems at inputs that meet their hypotheses.
use pentinum_os.Base.{ℕ, ◌+◌, ◌*◌, ◌<◌, ◌≡◌, ◌⊎◌, refl, if◌then◌else◌, ◌==◌, arith}
use pentinum_os.Paging.{
  Memory, esuccess, enomem, set_word, fill, initialize_pagetable, count_tables,
  x86_map_pages_get_page_count, ensure_table, map_entry, map_loop, x86_map_pages, x86_get_map,
  x86_get_flags, x86_get_phys_addr, x86_set_flags_pages,
}
use pentinum_os.Paging.Table.{IsMap}
use pentinum_os.Paging.Round.{IsFresh}
use pentinum_os.Paging.Map.{Mapped, x86_map_pages-Mapped}
use pentinum_os.Paging.Get.{x86_get_map-map_pages}
use pentinum_os.Paging.FlagRange.{Run, x86_set_flags_pages-Run}

-- Memory of zeros, with an empty directory at 0x1000 and a free page at 0x2000.
abbrev blank : Memory
blank a = 0

blank-IsMap : IsMap blank 0x1000
blank-IsMap = record {
  based = refl;
  absent = λ d h z. refl;
  present = λ d h o. absurd (omega arith);
  apart = λ d e h k n q. refl;
}

blank-IsFresh : (k : ℕ) → k < 1 → IsFresh blank 0x1000 (0x2000 + k * 4096)
blank-IsFresh k h = record {
  page = omega arith;
  nonzero = omega arith;
  no_dir = omega arith;
  no_table = λ e l. omega arith;
}

-- Two pages at 4 MiB, mapped to the frames at 0x8000.
abbrev mapped : ℕ × Memory
mapped = x86_map_pages blank 0x1000 0x400000 0x8000 2 2 0x2000 1

map_run : mapped ≡ (esuccess, mapped.1)
unfolding x86_map_pages map_loop map_entry ensure_table x86_map_pages_get_page_count count_tables
    set_word initialize_pagetable fill
map_run = refl

get_run : x86_get_map mapped.1 0x1000 0x401234 ≡ 0x9234
unfolding x86_map_pages map_loop map_entry ensure_table x86_map_pages_get_page_count count_tables
    x86_get_map initialize_pagetable fill set_word
get_run = refl

-- Without a new table the call is refused.
refused_run : x86_map_pages blank 0x1000 0x400000 0x8000 2 2 0x2000 0 ≡ (enomem, blank)
unfolding x86_map_pages x86_map_pages_get_page_count count_tables
refused_run = refl

x86_map_pages-Mapped_example :
    ((1 < x86_map_pages_get_page_count blank 0x1000 0x400000 2)
      × (x86_map_pages blank 0x1000 0x400000 0x8000 2 2 0x2000 1 ≡ (enomem, blank)))
    ⊎ ((m' : Memory) × (x86_map_pages blank 0x1000 0x400000 0x8000 2 2 0x2000 1 ≡ (esuccess, m'))
        × IsMap m' 0x1000
        × Mapped blank m' 0x1000 0x400 8 2 0x400 0x402)
x86_map_pages-Mapped_example =
    x86_map_pages-Mapped blank 0x1000 0x400000 0x8000 2 2 0x2000 1 blank-IsMap (omega arith)
      blank-IsFresh (omega arith) (omega arith)

x86_get_map-map_pages_example :
    (x86_get_map mapped.1 0x1000 0x401234 ≡ 0x9234)
    × (x86_get_phys_addr mapped.1 0x1000 0x401234 ≡ 0x9234)
    × (x86_get_flags mapped.1 0x1000 0x401234 ≡ 3)
x86_get_map-map_pages_example =
    x86_get_map-map_pages blank mapped.1 0x1000 0x400000 0x8000 2 2 0x2000 1 0x1234 blank-IsMap
      (omega arith) blank-IsFresh (omega arith) (omega arith) map_run (omega arith)

-- A directory with a table for the pages from 4 MiB on.
abbrev one_table : Memory
one_table a = if a == 0x1004 then 0x2003 else 0

one_table-IsMap : IsMap one_table 0x1000
one_table-IsMap = record {
  based = refl;
  absent = λ d h z. ground arith;
  present = λ d h o. (ground arith, ground arith);
  apart = λ d e h k n q. ground arith;
}

x86_set_flags_pages-Run_example :
    Run one_table 0x1000 4 0x400 2 (x86_set_flags_pages one_table 0x1000 0x400000 2 4)
x86_set_flags_pages-Run_example =
    x86_set_flags_pages-Run one_table 0x1000 0x400000 2 4 one_table-IsMap (omega arith)
