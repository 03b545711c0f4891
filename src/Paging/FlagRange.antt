-- ===== src/Paging/FlagRange.antt =====
-- The loop of `x86_set_flags_pages` of c-kernel/arch/paging/paging.c.
use mathlib.Core.Path.{subst}
use pentinum_os.Base.{
  ℕ, zero, suc, ◌+◌, ◌-◌, ◌*◌, ◌/◌, ◌^◌, ◌≤◌, ◌<◌, ◌≡◌, ◌≢◌, false, ltb, leb, ◌==◌, ◌&&◌,
  if◌then◌else◌, arith, refl, sym, ◌∙◌, ap, inl, inr, Bool-cases, ◌⊎◌,
}
use pentinum_os.Paging.{
  Memory, pd_table, index_pd, page_at, enopage, esuccess, flag_entry, flag_loop,
  x86_set_flags_pages,
}
use pentinum_os.Paging.Table.{entry, IsMap}
use pentinum_os.Paging.Range.{page_at_eq}
use pentinum_os.Paging.Get.{no_table_eq}
use pentinum_os.Paging.Flags.{flagged, Flagged, flag_entry-Flagged}

-- The pages `lo` to `hi - 1` have the flags, and every other page has the entry it had.
abbrev pub FlaggedRange : Memory → Memory → ℕ → ℕ → ℕ → ℕ → Type 0
FlaggedRange m m' dir flags lo hi =
    (x : ℕ)
    → x < 2 ^ 20
    → entry m' dir x
      ≡ (if leb lo x && ltb x hi then flagged flags (entry m dir x) else entry m dir x)

-- How a call over `n` pages from `lo` ends: after all of them, or before the page `lo + k`, the first
-- without a table. The pages before the end have the flags.
pub record Run (m : Memory) (dir flags lo n : ℕ) (result : ℕ × Memory) : Type 0 where
  pub k : ℕ
  pub m' : Memory
  pub map : IsMap m' dir
  pub range : FlaggedRange m m' dir flags lo (lo + k)
  pub ahead : (j : ℕ) → j < k → pd_table m dir ((lo + j) / 1024) ≢ 0
  pub end :
      ((k ≡ n) × (result ≡ (esuccess, m')))
      ⊎ ((k < n) × (pd_table m dir ((lo + k) / 1024) ≡ 0) × (result ≡ (enopage, m')))

module _ (dir V flags : ℕ) where
  abbrev after : Memory → ℕ → Memory
  after m i = flag_entry m dir ((V + i) * 4096) flags

  loop_stop :
      (m : Memory) (i n : ℕ)
      → V + i < 2 ^ 20
      → pd_table m dir ((V + i) / 1024) ≡ 0
      → flag_loop m dir (V * 4096) flags i (suc n) ≡ (enopage, m)
  unfolding flag_loop
  loop_stop m i n a z =
      let index : index_pd (page_at (V * 4096) i) ≡ (V + i) / 1024 = omega arith in
      rw (no_table_eq m dir (index_pd (page_at (V * 4096) i)), index, z) refl

  loop_step :
      (m : Memory) (i n : ℕ)
      → V + i < 2 ^ 20
      → pd_table m dir ((V + i) / 1024) ≢ 0
      → flag_loop m dir (V * 4096) flags i (suc n)
        ≡ flag_loop (after m i) dir (V * 4096) flags (suc i) n
  unfolding flag_loop
  loop_step m i n a z =
      let index : index_pd (page_at (V * 4096) i) ≡ (V + i) / 1024 = omega arith in
      let held : (pd_table m dir ((V + i) / 1024) == 0) ≡ false = ground arith in
      rw (no_table_eq m dir (index_pd (page_at (V * 4096) i)), index, held, page_at_eq V i a) refl

  loop_done : (m : Memory) (i : ℕ) → flag_loop m dir (V * 4096) flags i zero ≡ (esuccess, m)
  unfolding flag_loop
  loop_done m i = refl

  page-Flagged :
      (m : Memory) (i : ℕ)
      → IsMap m dir
      → V + i < 2 ^ 20
      → pd_table m dir ((V + i) / 1024) ≢ 0
      → Flagged m (after m i) dir (V + i) flags
  page-Flagged m i v a z =
      let index : index_pd ((V + i) * 4096) ≡ (V + i) / 1024 = omega arith in
      let page : (V + i) * 4096 / 4096 ≡ V + i = omega arith in
      subst (λ x. Flagged m (after m i) dir x flags) page
        (flag_entry-Flagged m dir ((V + i) * 4096) flags v (omega arith) (rw index z))

  -- A run of the rest of the range, from the run of the page before it.
  extend :
      (m : Memory) (i n : ℕ) (result : ℕ × Memory)
      → V + i + suc n ≤ 2 ^ 20
      → Flagged m (after m i) dir (V + i) flags
      → pd_table m dir ((V + i) / 1024) ≢ 0
      → Run (after m i) dir flags (V + suc i) n result
      → Run m dir flags (V + i) (suc n) result
  extend m i n result a f z r = record {
    k = suc r.k;
    m' = r.m';
    map = r.map;
    range = λ x h. elim (Bool-cases (x == V + i)) [
      | inl first ↦
          let q : x ≡ V + i = ground arith in
          let same : flagged flags (entry m dir x) ≡ flagged flags (entry m dir (V + i)) =
            ap (λ t. flagged flags (entry m dir t)) q in
          ground (arith, r.range x h, f.entries x h, same)
      | inr later ↦ ground (arith, r.range x h, f.entries x h)
    ];
    ahead = λ j h. elim (Bool-cases (j == 0)) [
      | inl first ↦
          let q : V + i + j ≡ V + i = ground arith in
          subst (λ x. pd_table m dir (x / 1024) ≢ 0) (sym q) z
      | inr later ↦
          let q : V + suc i + (j - 1) ≡ V + i + j = ground arith in
          λ e. r.ahead (j - 1) (ground arith) (
            (f.tables ((V + suc i + (j - 1)) / 1024) (ground (arith, r.end))).0
            ∙ ap (λ x. pd_table m dir (x / 1024)) q
            ∙ e)
    ];
    end = elim r.end [
      | inl (all, same) ↦ inl (ap (λ t. suc t) all, same)
      | inr (less, gone, same) ↦
          let q : V + i + suc r.k ≡ V + suc i + r.k = omega arith in
          inr (
            omega arith,
            ap (λ x. pd_table m dir (x / 1024)) q
                ∙ sym (f.tables ((V + suc i + r.k) / 1024) (omega arith)).0
                ∙ gone,
            same,
          )
    ];
  }

  flag_loop-Run :
      (n i : ℕ) (m : Memory)
      → IsMap m dir
      → V + i + n ≤ 2 ^ 20
      → Run m dir flags (V + i) n (flag_loop m dir (V * 4096) flags i n)
  flag_loop-Run zero i m v a = record {
    k = 0;
    m' = m;
    map = v;
    range = λ x h. ground arith;
    ahead = λ j h. absurd (omega arith);
    end = inl (refl, loop_done m i);
  }
  flag_loop-Run (suc n) i m v a = elim (Bool-cases (pd_table m dir ((V + i) / 1024) == 0)) [
    | inl gone ↦
        let z : pd_table m dir ((V + i) / 1024) ≡ 0 = ground arith in
        record {
          k = 0;
          m' = m;
          map = v;
          range = λ x h. ground arith;
          ahead = λ j h. absurd (omega arith);
          end = inr (
            omega arith,
            subst (λ x. pd_table m dir (x / 1024) ≡ 0) (omega arith) z,
            loop_stop m i n (omega arith) z,
          );
        }
    | inr held ↦
        let z : pd_table m dir ((V + i) / 1024) ≢ 0 = ground arith in
        let f = page-Flagged m i v (omega arith) z in
        rw (loop_step m i n (omega arith) z)
          (extend m i n _ a f z (flag_loop-Run n (suc i) (after m i) f.map (omega arith)))
  ]

-- On an intact directory, over a range that does not pass the end of the address space,
-- `x86_set_flags_pages` keeps the directory intact and either gives each page the flags and returns
-- ESUCCESS, or returns ENOPAGE at the first page whose directory entry has no table, when the pages
-- before it have the flags. The frames of the pages and all other pages are unchanged.
pub x86_set_flags_pages-Run :
    (m : Memory) (dir vaddress pages flags : ℕ)
    → IsMap m dir
    → vaddress / 4096 + pages ≤ 2 ^ 20
    → Run m dir flags (vaddress / 4096) pages (x86_set_flags_pages m dir vaddress pages flags)
unfolding x86_set_flags_pages
x86_set_flags_pages-Run m dir vaddress pages flags v a =
    subst (λ lo. Run m dir flags lo pages (flag_loop m dir (vaddress / 4096 * 4096) flags 0 pages))
      (omega arith) (flag_loop-Run dir (vaddress / 4096) flags pages 0 m v (omega arith))
