-- ===== src/Paging.antt =====
-- The two-level page tables of the i686: c-kernel/arch/paging/paging.c. The directory and the
-- tables are words in memory. `log_mmu_map` only prints, and the calls that load a register
-- (`x86_load_mmu_map`, `x86_get_mmu_ctx`) are assembly: they are left out.
pub mod Table
pub mod Page
pub mod Round
pub mod Create
pub mod Flags
pub mod FlagRange
pub mod Get
pub mod Map
pub mod Range
mod Tests
use pentinum_os.Base.{
  ℕ, zero, suc, ◌+◌, ◌-◌, ◌*◌, ◌/◌, ◌%◌, ◌^◌, bit_and, bit_or, Bool, true, false, not, ◌&&◌, ◌||◌,
  ◌==◌, Option, none, some, ltb, if◌then◌else◌, add32,
}

-- The 32-bit words of memory, by the byte address of each.
abbrev pub Memory : Type 0
Memory = ℕ → ℕ

unfoldable pub set_word : Memory → ℕ → ℕ → Memory
set_word m a w x = if x == a then w else m x

-- `base[i]` and `base[i] = w` for an array of words.
abbrev pub at : ℕ → ℕ → ℕ
at base i = base + 4 * i

abbrev pub page_size : ℕ
page_size = 4096

abbrev pub pagetable_size : ℕ
pagetable_size = 1024

abbrev pub page_present : ℕ
page_present = 0x01

abbrev pub page_rw : ℕ
page_rw = 0x02

abbrev pub esuccess : ℕ
esuccess = 0x0

abbrev pub enomem : ℕ
enomem = 0x10

abbrev pub enopage : ℕ
enopage = 0x11

-- `w & 0xFFF` and `w & 0xFFFFF000`
abbrev pub low : ℕ → ℕ
low w = w % page_size

abbrev pub aligned : ℕ → ℕ
aligned w = w / page_size * page_size

abbrev pub pd_flags : Memory → ℕ → ℕ → ℕ
pd_flags m dir pd = low (m (at dir pd))

abbrev pub pd_table : Memory → ℕ → ℕ → ℕ
pd_table m dir pd = aligned (m (at dir pd))

-- `(map->directory[pd] & X86_PAGE_PRESENT) != 0`
abbrev pub pd_present : Memory → ℕ → ℕ → Bool
pd_present m dir pd = m (at dir pd) % 2 == 1

-- `v >> 22` and `(v >> 12) & 0x03FF`
abbrev pub index_pd : ℕ → ℕ
index_pd v = v / 4194304

abbrev pub index_pt : ℕ → ℕ
index_pt v = v / 4096 % 1024

-- The first `n` words of the table are set to `w`, in order.
unfoldable pub fill : Memory → ℕ → ℕ → ℕ → Memory
fill m table w zero = m
fill m table w (suc n) = set_word (fill m table w n) (at table n) w

unfoldable pub initialize_pagetable : Memory → ℕ → ℕ → ℕ → Memory
initialize_pagetable m dir table pd =
    let m1 = fill m table 0 pagetable_size in
    set_word m1 (at dir pd) (bit_or (bit_or table (low (pd_flags m1 dir pd))) page_present)

unfoldable pub x86_construct_pagetable : Memory → ℕ → Memory
x86_construct_pagetable m page =
    let flags = bit_or page_rw page_present in
    fill m page (bit_or 0 (low flags) / 2 * 2) pagetable_size

-- The directory is copied, its tables are shared.
unfoldable pub copy_words : Memory → ℕ → ℕ → ℕ → Memory
copy_words m page src zero = m
copy_words m page src (suc n) =
    let m' = copy_words m page src n in set_word m' (at page n) (m' (at src n))

unfoldable pub x86_copy_pagetable : Memory → ℕ → ℕ → Memory
unfolding copy_words
x86_copy_pagetable m page src = copy_words m page src pagetable_size

-- The address of page `i` from `base`.
abbrev pub page_at : ℕ → ℕ → ℕ
page_at base i = add32 base (i * page_size % 2 ^ 32)

-- The loop of `x86_map_pages_get_page_count`, with `n` pages left from page `i`.
unfoldable pub count_tables : Memory → ℕ → ℕ → ℕ → ℕ → ℕ → ℕ
count_tables m dir v last i zero = 0
count_tables m dir v last i (suc n) =
    let pd = index_pd (page_at v i) in
    let fresh = not (pd_present m dir pd) && not (pd == last) in
    let rest = count_tables m dir v (if fresh then pd else last) (suc i) n in
    if fresh then suc rest else rest

unfoldable pub x86_map_pages_get_page_count : Memory → ℕ → ℕ → ℕ → ℕ
unfolding count_tables
x86_map_pages_get_page_count m dir vaddress pages =
    count_tables m dir (aligned vaddress) 0xFFFFFFFF 0 pages

-- The two writes at the end of a round: the directory entry, then the table entry.
unfoldable pub map_entry : Memory → ℕ → ℕ → ℕ → ℕ → Memory
map_entry m dir v p flags =
    let pd = index_pd v in
    let table = pd_table m dir pd in
    let m1 =
      set_word m (at dir pd)
        (bit_or (bit_or table (low (bit_or (pd_flags m dir pd) flags))) page_present) in
    set_word m1 (at table (index_pt v)) (bit_or (bit_or p (low flags)) page_present)

-- The allocation in a round: the next of the `cnt` new tables, of which `idx` are in use.
unfoldable pub ensure_table : Memory → ℕ → ℕ → ℕ → ℕ → ℕ → Option (Memory × ℕ)
ensure_table m dir tables cnt idx pd =
    if pd_present m dir pd
    then some (m, idx)
    else if not (ltb idx cnt)
    then none
    else some (initialize_pagetable m dir (add32 tables (idx * page_size)) pd, suc idx)

-- The loop of `x86_map_pages`, with `n` pages left from page `i`: the error code, and memory as the
-- loop leaves it.
unfoldable pub map_loop : Memory → ℕ → ℕ → ℕ → ℕ → ℕ → ℕ → ℕ → ℕ → ℕ → ℕ × Memory
map_loop m dir v p flags tables cnt idx i zero = (esuccess, m)
map_loop m dir v p flags tables cnt idx i (suc n) =
    elim (ensure_table m dir tables cnt idx (index_pd (page_at v i))) [
      | none ↦ (enomem, m)
      | some s ↦
          map_loop (map_entry s.0 dir (page_at v i) (page_at p i) flags) dir v p flags tables cnt
            s.1 (suc i) n
    ]

unfoldable pub x86_map_pages : Memory → ℕ → ℕ → ℕ → ℕ → ℕ → ℕ → ℕ → ℕ × Memory
unfolding map_loop
x86_map_pages m dir vaddress paddress pages flags alloc_pages alloc_page_count =
    let v = aligned vaddress in
    let p = aligned paddress in
    if ltb alloc_page_count (x86_map_pages_get_page_count m dir v pages)
    then (enomem, m)
    else map_loop m dir v p flags alloc_pages alloc_page_count 0 0 pages

-- `X86_PD_FLAGS(map, pd) & X86_PAGE_PRESENT == 0`, where C compares first: `flags & (1 == 0)`.
abbrev pub absent_test : Memory → ℕ → ℕ → Bool
absent_test m dir pd = not (bit_and (pd_flags m dir pd) (if page_present == 0 then 1 else 0) == 0)

abbrev pub no_table : Memory → ℕ → ℕ → Bool
no_table m dir pd = (pd_table m dir pd == 0) || absent_test m dir pd

-- The two writes of a round of `x86_set_flags_pages`: the table entry, then the directory entry.
unfoldable pub flag_entry : Memory → ℕ → ℕ → ℕ → Memory
flag_entry m dir v flags =
    let pd = index_pd v in
    let table = pd_table m dir pd in
    let slot = at table (index_pt v) in
    let m1 = set_word m slot (bit_or (bit_or (aligned (m slot)) (low flags)) 0x01) in
    set_word m1 (at dir pd)
      (bit_or (bit_or table (low (bit_or (pd_flags m1 dir pd) flags))) page_present)

unfoldable pub flag_loop : Memory → ℕ → ℕ → ℕ → ℕ → ℕ → ℕ × Memory
flag_loop m dir v flags i zero = (esuccess, m)
flag_loop m dir v flags i (suc n) =
    let rest = flag_loop (flag_entry m dir (page_at v i) flags) dir v flags (suc i) n in
    if no_table m dir (index_pd (page_at v i)) then (enopage, m) else rest

unfoldable pub x86_set_flags_pages : Memory → ℕ → ℕ → ℕ → ℕ → ℕ × Memory
unfolding flag_loop
x86_set_flags_pages m dir vaddress pages flags = flag_loop m dir (aligned vaddress) flags 0 pages

unfoldable pub x86_get_map : Memory → ℕ → ℕ → ℕ
x86_get_map m dir vaddr =
    let page = aligned vaddr in
    if no_table m dir (index_pd page)
    then enopage
    else add32 (aligned (m (at (pd_table m dir (index_pd page)) (index_pt page)))) (low vaddr)

unfoldable pub x86_get_flags : Memory → ℕ → ℕ → ℕ
x86_get_flags m dir vaddress =
    let page = aligned vaddress in
    if no_table m dir (index_pd page)
    then enopage
    else low (m (at (pd_table m dir (index_pd page)) (index_pt page)))

unfoldable pub x86_get_phys_addr : Memory → ℕ → ℕ → ℕ
x86_get_phys_addr m dir vaddress =
    let offset = low vaddress in
    let page = aligned vaddress in
    if no_table m dir (index_pd page)
    then enopage
    else add32 (aligned (m (at (pd_table m dir (index_pd page)) (index_pt page)))) offset
