-- ===== src/Paging/Map.antt =====
-- `x86_map_pages` of c-kernel/arch/paging/paging.c over its whole range.
use pentinum_os.Base.{
  ℕ, zero, suc, ◌+◌, ◌-◌, ◌*◌, ◌/◌, ◌^◌, ◌≤◌, ◌<◌, ◌≡◌, true, false, ltb, leb, ◌==◌, ◌&&◌, ◌⊎◌,
  if◌then◌else◌, arith, refl, ◌∙◌, ap, inl, inr, Bool-cases, some,
}
use pentinum_os.Paging.{
  Memory, map_entry, index_pd, page_at, aligned, esuccess, enomem, count_tables, ensure_table,
  map_loop, x86_map_pages, x86_map_pages_get_page_count,
}
use pentinum_os.Paging.Table.{entry, IsMap, word}
use pentinum_os.Paging.Page.{SameEntries}
use pentinum_os.Paging.Round.{IsFresh, Entered, map_entry-Entered}
use pentinum_os.Paging.Range.{page_at_eq, Ready, Ready-SameTables, Ensured, ensure_table-Ensured}

-- The pages `lo` to `hi - 1` have entries that lead to the frames from `frame`, page `V` being the
-- one that leads to `frame`; every other page has the entry it had.
abbrev pub Mapped : Memory → Memory → ℕ → ℕ → ℕ → ℕ → ℕ → ℕ → Type 0
Mapped m m' dir V frame flags lo hi =
    (x : ℕ)
    → x < 2 ^ 20
    → entry m' dir x
      ≡ (if leb lo x && ltb x hi then word ((frame + (x - V)) * 4096) flags else entry m dir x)

module _ (m0 : Memory) (dir V frame flags tables cnt : ℕ)
    (ends : tables + cnt * 4096 ≤ 2 ^ 32) where
  -- A run of the loop from page `i` with `n` pages left.
  abbrev Loops : Memory → ℕ → ℕ → ℕ → Type 0
  Loops m idx i n =
      (m' : Memory) × (map_loop m dir (V * 4096) (frame * 4096) flags tables cnt idx i n
        ≡ (esuccess, m'))
      × IsMap m' dir
      × Mapped m m' dir V frame flags (V + i) (V + i + n)

  abbrev after : Memory → ℕ → Memory
  after m1 i = map_entry m1 dir ((V + i) * 4096) ((frame + i) * 4096) flags

  map_loop_step :
      (m m1 : Memory) (idx idx1 i n : ℕ)
      → V + i < 2 ^ 20
      → frame + i < 2 ^ 20
      → ensure_table m dir tables cnt idx (index_pd (page_at (V * 4096) i)) ≡ some (m1, idx1)
      → map_loop m dir (V * 4096) (frame * 4096) flags tables cnt idx i (suc n)
        ≡ map_loop (after m1 i) dir (V * 4096) (frame * 4096) flags tables cnt idx1 (suc i) n
  unfolding map_loop
  map_loop_step m m1 idx idx1 i n a b e =
      rw (e, map_loop) (rw (page_at_eq V i a, page_at_eq frame i b) refl)

  map_loop_done :
      (m : Memory) (idx i : ℕ)
      → map_loop m dir (V * 4096) (frame * 4096) flags tables cnt idx i zero ≡ (esuccess, m)
  unfolding map_loop
  map_loop_done m idx i = refl

  -- The pages from `i` on, from the page `i` and the pages after it.
  extend :
      (m m1 m2 m' : Memory) (i n : ℕ)
      → SameEntries m m1 dir
      → Entered m1 m2 dir ((V + i) * 4096 / 4096) (word ((frame + i) * 4096) flags)
      → Mapped m2 m' dir V frame flags (V + suc i) (V + suc i + n)
      → Mapped m m' dir V frame flags (V + i) (V + i + suc n)
  extend m m1 m2 m' i n same entered mapped x h = elim (Bool-cases (x == V + i)) [
    | inl first ↦
        let q : word ((frame + (x - V)) * 4096) flags ≡ word ((frame + i) * 4096) flags =
          ap (λ t. word t flags) (ground arith) in
        ground (arith, mapped x h, entered.entries x h, q)
    | inr later ↦ ground (arith, mapped x h, entered.entries x h, same x h)
  ]

  round :
      (m : Memory) (idx i n : ℕ)
      → V + i + suc n ≤ 2 ^ 20
      → frame + i + suc n ≤ 2 ^ 20
      → (e : Ensured m0 dir V tables cnt ends m idx i n)
      → Entered e.m1 (after e.m1 i) dir ((V + i) * 4096 / 4096) (word ((frame + i) * 4096) flags)
  round m idx i n a b e =
      let index : index_pd ((V + i) * 4096) ≡ (V + i) / 1024 = omega arith in
      map_entry-Entered e.m1 dir ((V + i) * 4096) ((frame + i) * 4096) flags e.ready.map
        (omega arith) (rw index e.odd) (omega arith)

  map_loop-Loops :
      (n i idx last : ℕ) (m : Memory)
      → V + i + n ≤ 2 ^ 20
      → frame + i + n ≤ 2 ^ 20
      → Ready m0 dir V tables cnt m last idx i n
      → Loops m idx i n
  map_loop-Loops zero i idx last m a b r = (m, map_loop_done m idx i, r.map, λ x h. ground arith)
  map_loop-Loops (suc n) i idx last m a b r =
      let e = ensure_table-Ensured m0 dir V tables cnt ends m last idx i n a r in
      let entered = round m idx i n a b e in
      let ready =
        Ready-SameTables m0 dir V tables cnt ends e.m1 (after e.m1 i) e.last1 e.idx1 (suc i) n
          e.ready entered.tables entered.map in
      let (m', run, map, mapped) =
        map_loop-Loops n (suc i) e.idx1 e.last1 (after e.m1 i) (omega arith) (omega arith) ready in
      (
        m',
        map_loop_step m e.m1 idx e.idx1 i n (omega arith) (omega arith) e.result ∙ run,
        map,
        extend m e.m1 (after e.m1 i) m' i n e.same entered mapped,
      )

abbrev no_last : ℕ
no_last = 0xFFFFFFFF

count_eq :
    (m : Memory) (dir vaddress pages : ℕ)
    → x86_map_pages_get_page_count m dir (aligned vaddress) pages
      ≡ count_tables m dir (vaddress / 4096 * 4096) no_last 0 pages
unfolding x86_map_pages_get_page_count
count_eq m dir vaddress pages =
    let twice : aligned (aligned vaddress) ≡ vaddress / 4096 * 4096 = omega arith in rw twice refl

map_refused :
    (m : Memory) (dir vaddress paddress pages flags tables cnt : ℕ)
    → cnt < x86_map_pages_get_page_count m dir (aligned vaddress) pages
    → x86_map_pages m dir vaddress paddress pages flags tables cnt ≡ (enomem, m)
unfolding x86_map_pages
map_refused m dir vaddress paddress pages flags tables cnt h =
    let few : ltb cnt (x86_map_pages_get_page_count m dir (aligned vaddress) pages) ≡ true =
      ground arith in
    rw few refl

map_started :
    (m : Memory) (dir vaddress paddress pages flags tables cnt : ℕ)
    → x86_map_pages_get_page_count m dir (aligned vaddress) pages ≤ cnt
    → x86_map_pages m dir vaddress paddress pages flags tables cnt
      ≡ map_loop m dir (vaddress / 4096 * 4096) (paddress / 4096 * 4096) flags tables cnt 0 0 pages
unfolding x86_map_pages
map_started m dir vaddress paddress pages flags tables cnt h =
    let enough : ltb cnt (x86_map_pages_get_page_count m dir (aligned vaddress) pages) ≡ false =
      ground arith in
    rw enough refl

start-Ready :
    (m : Memory) (dir V tables cnt pages : ℕ)
    → IsMap m dir
    → ((k : ℕ) → k < cnt → IsFresh m dir (tables + k * 4096))
    → count_tables m dir (V * 4096) no_last 0 pages ≤ cnt
    → Ready m dir V tables cnt m no_last 0 0 pages
start-Ready m dir V tables cnt pages v fresh h = record {
  map = v;
  fresh = λ k a b. fresh k b;
  seen = λ d a b. ground arith;
  passed = λ low. omega arith;
  budget = omega arith;
}

-- On an intact directory, when `alloc_pages` holds `alloc_page_count` pages that are fresh and apart
-- from the null page, and neither range passes the end of the address space: if there are as many of
-- them as `x86_map_pages_get_page_count` says, `x86_map_pages` succeeds, keeps the directory intact,
-- maps each of the pages to its frame and changes no other page; otherwise it returns ENOMEM and
-- changes nothing.
pub x86_map_pages-Mapped :
    (m : Memory) (dir vaddress paddress pages flags tables cnt : ℕ)
    → IsMap m dir
    → tables + cnt * 4096 ≤ 2 ^ 32
    → ((k : ℕ) → k < cnt → IsFresh m dir (tables + k * 4096))
    → vaddress / 4096 + pages ≤ 2 ^ 20
    → paddress / 4096 + pages ≤ 2 ^ 20
    → ((cnt < x86_map_pages_get_page_count m dir (aligned vaddress) pages)
        × (x86_map_pages m dir vaddress paddress pages flags tables cnt ≡ (enomem, m)))
      ⊎ ((m' : Memory) × (x86_map_pages m dir vaddress paddress pages flags tables cnt
            ≡ (esuccess, m'))
          × IsMap m' dir
          × Mapped m m' dir
              (vaddress / 4096)
              (paddress / 4096)
              flags
              (vaddress / 4096)
              (vaddress / 4096 + pages))
x86_map_pages-Mapped m dir vaddress paddress pages flags tables cnt v ends fresh a b =
    let V = vaddress / 4096 in
    let same = count_eq m dir vaddress pages in
    elim (Bool-cases (ltb cnt (x86_map_pages_get_page_count m dir (aligned vaddress) pages))) [
      | inl few ↦
          let h : cnt < x86_map_pages_get_page_count m dir (aligned vaddress) pages =
            ground arith in
          inl (h, map_refused m dir vaddress paddress pages flags tables cnt h)
      | inr enough ↦
          let h : x86_map_pages_get_page_count m dir (aligned vaddress) pages ≤ cnt =
            ground arith in
          let ready = start-Ready m dir V tables cnt pages v fresh (omega (arith, same, h)) in
          let (m', run, map, mapped) =
            map_loop-Loops m dir V (paddress / 4096) flags tables cnt ends pages 0 0 no_last m
              (omega arith) (omega arith) ready in
          inr (
            m',
            map_started m dir vaddress paddress pages flags tables cnt h ∙ run,
            map,
            λ x k. ground (arith, mapped x k),
          )
    ]
