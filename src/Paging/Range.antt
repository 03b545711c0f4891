-- ===== src/Paging/Range.antt =====
-- The allocation of tables in `x86_map_pages` of c-kernel/arch/paging/paging.c, against the count of
-- `x86_map_pages_get_page_count`.
use mathlib.Core.Path.{subst}
use pentinum_os.Base.{
  ℕ, suc, ◌+◌, ◌*◌, ◌/◌, ◌%◌, ◌^◌, ◌≤◌, ◌<◌, ◌≡◌, true, false, ltb, add32, not, ◌==◌, ◌&&◌, ◌||◌,
  arith, refl, sym, ◌∙◌, ap, inl, inr, Bool-cases, some,
}
use pentinum_os.Paging.{
  Memory, at, pd_present, initialize_pagetable, index_pd, page_at, page_size, count_tables,
  ensure_table,
}
use pentinum_os.Paging.Table.{IsMap}
use pentinum_os.Paging.Page.{SameEntries, SameTables}
use pentinum_os.Paging.Round.{IsFresh, Installed, initialize_pagetable-Installed}

pub page_at_eq : (V i : ℕ) → V + i < 2 ^ 20 → page_at (V * 4096) i ≡ (V + i) * 4096
page_at_eq V i h = omega arith

-- Where the loop stands at page `i` with `n` pages left, when `m0` was memory at its start: the
-- unused new pages can become tables, the tables ahead are those of `m0` and the `last` counted one,
-- and the count of the rest fits.
pub record Ready (m0 : Memory) (dir V tables cnt : ℕ) (m : Memory) (last idx i n : ℕ) : Type 0 where
  pub map : IsMap m dir
  pub fresh : (k : ℕ) → idx ≤ k → k < cnt → IsFresh m dir (tables + k * 4096)
  pub seen :
      (d : ℕ)
      → (V + i) / 1024 ≤ d
      → d < 1024
      → pd_present m dir d ≡ (pd_present m0 dir d || (d == last))
  pub passed : last < 1024 → last ≤ (V + i) / 1024
  pub budget : idx + count_tables m0 dir (V * 4096) last i n ≤ cnt

module _ (m0 : Memory) (dir V tables cnt : ℕ) (ends : tables + cnt * 4096 ≤ 2 ^ 32) where
  pub Ready-SameTables :
      (m m' : Memory) (last idx i n : ℕ)
      → Ready m0 dir V tables cnt m last idx i n
      → SameTables m m' dir
      → IsMap m' dir
      → Ready m0 dir V tables cnt m' last idx i n
  Ready-SameTables m m' last idx i n r same v = record {
    map = v;
    fresh = λ k a b.
        let f = r.fresh k a b in
        record {
          page = f.page;
          nonzero = f.nonzero;
          no_dir = f.no_dir;
          no_table = λ e h q. f.no_table e h (sym (same e h).0 ∙ q);
        };
    seen = λ d a b. ap (λ w. w == 1) (same d b).1 ∙ r.seen d a b;
    passed = r.passed;
    budget = r.budget;
  }

  -- What the allocation of a round gives.
  pub record Ensured (m : Memory) (idx i n : ℕ) : Type 0 where
    pub m1 : Memory
    pub last1 : ℕ
    pub idx1 : ℕ
    pub result :
        ensure_table m dir tables cnt idx (index_pd (page_at (V * 4096) i)) ≡ some (m1, idx1)
    pub ready : Ready m0 dir V tables cnt m1 last1 idx1 (suc i) n
    pub same : SameEntries m m1 dir
    pub odd : m1 (at dir ((V + i) / 1024)) % 2 ≡ 1

  module _ (m : Memory) (last idx i n : ℕ) (room : V + i + suc n ≤ 2 ^ 20)
      (r : Ready m0 dir V tables cnt m last idx i (suc n)) where
    abbrev pd : ℕ
    pd = (V + i) / 1024

    here : index_pd (page_at (V * 4096) i) ≡ pd
    here = omega arith

    count_kept :
        pd_present m dir pd ≡ true
        → count_tables m0 dir (V * 4096) last i (suc n)
          ≡ count_tables m0 dir (V * 4096) last (suc i) n
    unfolding count_tables
    count_kept p =
        let old : (not (pd_present m0 dir pd) && not (pd == last)) ≡ false =
          ground (arith, r.seen pd) in
        rw (here, old) refl

    count_more :
        pd_present m dir pd ≡ false
        → count_tables m0 dir (V * 4096) last i (suc n)
          ≡ suc (count_tables m0 dir (V * 4096) pd (suc i) n)
    unfolding count_tables
    count_more p =
        let new : (not (pd_present m0 dir pd) && not (pd == last)) ≡ true =
          ground (arith, r.seen pd) in
        rw (here, new) refl

    ensure_kept : pd_present m dir pd ≡ true → Ensured m idx i n
    unfolding ensure_table
    ensure_kept p = record {
      m1 = m;
      last1 = last;
      idx1 = idx;
      result = rw (here, p) refl;
      ready = record {
        map = r.map;
        fresh = r.fresh;
        seen = λ d a b. r.seen d (omega arith) b;
        passed = λ h. omega (arith, r.passed h);
        budget = subst (λ c. idx + c ≤ cnt) (count_kept p) r.budget;
      };
      same = λ x h. refl;
      odd = ground arith;
    }

    module _ (p : pd_present m dir pd ≡ false) where
      within : idx < cnt
      within = omega (arith, r.budget, count_more p)

      abbrev table : ℕ
      table = tables + idx * 4096

      abbrev grown : Memory
      grown = initialize_pagetable m dir table pd

      grown-Installed : Installed m grown dir pd table
      grown-Installed =
          initialize_pagetable-Installed m dir pd table r.map (omega arith) (ground arith)
            (r.fresh idx (omega arith) within)

      ensure_eq :
          ensure_table m dir tables cnt idx (index_pd (page_at (V * 4096) i))
          ≡ some (grown, suc idx)
      unfolding ensure_table
      ensure_eq =
          let more : ltb idx cnt ≡ true = ground (arith, within) in
          let place : add32 tables (idx * page_size) ≡ table = omega (arith, within) in
          rw (here, p, more, place) refl

      grown-IsFresh : (k : ℕ) → suc idx ≤ k → k < cnt → IsFresh grown dir (tables + k * 4096)
      grown-IsFresh k a b =
          let f = r.fresh k (omega arith) b in
          record {
            page = f.page;
            nonzero = f.nonzero;
            no_dir = f.no_dir;
            no_table = λ e h. elim (Bool-cases (e == pd)) [
              | inl same ↦
                  let q : e ≡ pd = ground arith in rw (q, grown-Installed.table) (omega arith)
              | inr other ↦ rw (grown-Installed.others e h (ground arith)) (f.no_table e h)
            ];
          }

      grown_seen :
          (d : ℕ)
          → (V + suc i) / 1024 ≤ d
          → d < 1024
          → pd_present grown dir d ≡ (pd_present m0 dir d || (d == pd))
      grown_seen d a b = elim (Bool-cases (d == pd)) [
        | inl same ↦ let q : d ≡ pd = ground arith in rw (q, grown-Installed.present) (ground arith)
        | inr other ↦
            let behind : (d == last) ≡ false = ground (arith, r.passed) in
            rw (grown-Installed.others d b (ground arith))
              (ground (arith, r.seen d (omega arith) b, behind, other))
      ]

      ensure_new : Ensured m idx i n
      ensure_new = record {
        m1 = grown;
        last1 = pd;
        idx1 = suc idx;
        result = ensure_eq;
        ready = record {
          map = grown-Installed.map;
          fresh = grown-IsFresh;
          seen = grown_seen;
          passed = λ h. omega arith;
          budget = omega (arith, r.budget, count_more p);
        };
        same = grown-Installed.same;
        odd = grown-Installed.present;
      }

    pub ensure_table-Ensured : Ensured m idx i n
    ensure_table-Ensured = elim (Bool-cases (pd_present m dir pd)) [
      | inl present ↦ ensure_kept present
      | inr absent ↦ ensure_new absent
    ]
