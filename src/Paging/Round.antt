-- ===== src/Paging/Round.antt =====
-- One round of `x86_map_pages` in c-kernel/arch/paging/paging.c: the new table, and the two writes.
use pentinum_os.Base.{
  ℕ, ◌+◌, ◌*◌, ◌/◌, ◌%◌, ◌^◌, ◌<◌, ◌≡◌, ◌≢◌, bit_or, false, ◌==◌, if◌then◌else◌, arith, refl, sym,
  ◌∙◌, ap, inl, inr, Bool-cases,
}
use mathlib.Core.Path.{subst}
use pentinum_os.Paging.{
  Memory, set_word, at, low, aligned, pd_table, fill, initialize_pagetable, pd_flags, map_entry,
  index_pd, index_pt,
}
use pentinum_os.Paging.Table.{
  entry, IsMap, word, present_word, aligned-word, set_word_same, set_word_other, fill_in, fill_out,
}
use pentinum_os.Paging.Page.{
  SameEntries, SameTables, SameTables-IsMap, write_dir-SameTables, write_dir-SameEntries,
  write_slot-SameTables, write_slot-entry,
}

-- The page `t` can become a table: it is neither the directory nor a table, nor the null page.
pub record IsFresh (m : Memory) (dir t : ℕ) : Type 0 where
  pub page : t % 4096 ≡ 0
  pub nonzero : t ≢ 0
  pub no_dir : t ≢ dir
  pub no_table : (e : ℕ) → e < 1024 → pd_table m dir e ≢ t

-- The directory `m'` leads to the table `t` from entry `d`, and is otherwise as it was.
pub record Installed (m m' : Memory) (dir d t : ℕ) : Type 0 where
  pub map : IsMap m' dir
  pub same : SameEntries m m' dir
  pub table : pd_table m' dir d ≡ t
  pub present : m' (at dir d) % 2 ≡ 1
  pub others : (e : ℕ) → e < 1024 → e ≢ d → m' (at dir e) ≡ m (at dir e)

module _ (m : Memory) (dir d t : ℕ) (v : IsMap m dir) (h : d < 1024) (z : m (at dir d) % 2 ≡ 0)
    (f : IsFresh m dir t) where
  abbrev cleared : Memory
  cleared = fill m t 0 1024

  abbrev installed : Memory
  installed = set_word cleared (at dir d) (word t (low (cleared (at dir d))))

  initialize_eq : initialize_pagetable m dir t d ≡ installed
  unfolding initialize_pagetable
  initialize_eq = rw (present_word t (low (cleared (at dir d))) f.page) refl

  cleared_dir : (e : ℕ) → e < 1024 → cleared (at dir e) ≡ m (at dir e)
  cleared_dir e k =
      fill_out m t 0 1024 (at dir e) (λ i l. ground (arith, f.page, v.based, f.no_dir))

  cleared_table :
      (e j : ℕ)
      → e < 1024
      → j < 1024
      → cleared (at (pd_table m dir e) j) ≡ m (at (pd_table m dir e) j)
  cleared_table e j k l =
      fill_out m t 0 1024 (at (pd_table m dir e) j) (λ i n. ground (arith, f.page, f.no_table e k))

  installed-word : installed (at dir d) ≡ word t (low (cleared (at dir d)))
  installed-word = set_word_same cleared (at dir d) (word t (low (cleared (at dir d))))

  installed_table : pd_table installed dir d ≡ t
  installed_table = rw installed-word (aligned-word t (low (cleared (at dir d))) f.page).0

  installed_others : (e : ℕ) → e < 1024 → e ≢ d → installed (at dir e) ≡ m (at dir e)
  installed_others e k n =
      set_word_other cleared (at dir d) (word t (low (cleared (at dir d)))) (at dir e)
        (ground arith)
      ∙ cleared_dir e k

  installed_slot : (x : ℕ) → x ≢ at dir d → installed x ≡ cleared x
  installed_slot x n = set_word_other cleared (at dir d) (word t (low (cleared (at dir d)))) x n

  installed-SameEntries : SameEntries m installed dir
  installed-SameEntries x k = elim (Bool-cases (x / 1024 == d)) [
    | inl same ↦
        let e : x / 1024 ≡ d = ground arith in
        let held : (t == 0) ≡ false = ground (arith, f.nonzero) in
        rw (e, installed_table, v.absent d h z, held)
          (installed_slot (at t (x % 1024)) (ground (arith, f.page, v.based, f.no_dir))
            ∙ fill_in m t 0 1024 (x % 1024) (omega arith))
    | inr other ↦
        rw (installed_others (x / 1024) (omega arith) (ground arith))
          (elim (Bool-cases (pd_table m dir (x / 1024) == 0)) [
            | inl gone ↦ rw gone refl
            | inr held ↦ rw held (
                installed_slot (at (pd_table m dir (x / 1024)) (x % 1024))
                  (ground (arith, v.based, v.absent (x / 1024), v.present (x / 1024)))
                ∙ cleared_table (x / 1024) (x % 1024) (omega arith) (omega arith))
          ])
  ]

  installed_odd : installed (at dir d) % 2 ≡ 1
  installed_odd = rw installed-word (aligned-word t (low (cleared (at dir d))) f.page).1

  installed_absent :
      (e : ℕ) → e < 1024 → installed (at dir e) % 2 ≡ 0 → pd_table installed dir e ≡ 0
  installed_absent e k = elim (Bool-cases (e == d)) [
    | inl same ↦
        let q : e ≡ d = ground arith in
        λ even. ground (arith, installed_odd, ap (λ a. installed (at dir a) % 2) q)
    | inr other ↦ rw (installed_others e k (ground arith)) (v.absent e k)
  ]

  installed_present :
      (e : ℕ)
      → e < 1024
      → installed (at dir e) % 2 ≡ 1
      → (pd_table installed dir e ≢ 0) × (pd_table installed dir e ≢ dir)
  installed_present e k = elim (Bool-cases (e == d)) [
    | inl same ↦
        let q : e ≡ d = ground arith in rw (q, installed_table) (λ odd. (f.nonzero, f.no_dir))
    | inr other ↦ rw (installed_others e k (ground arith)) (v.present e k)
  ]

  installed_apart :
      (a b : ℕ)
      → a < 1024
      → b < 1024
      → a ≢ b
      → pd_table installed dir a ≡ pd_table installed dir b
      → pd_table installed dir a ≡ 0
  installed_apart a b k l n = elim (Bool-cases (a == d)) [
    | inl same ↦
        let q : a ≡ d = ground arith in
        rw (q, installed_table, installed_others b l (ground arith))
          (λ r. absurd (f.no_table b l (sym r)))
    | inr other ↦ elim (Bool-cases (b == d)) [
      | inl same ↦
          let q : b ≡ d = ground arith in
          rw (q, installed_table, installed_others a k (ground arith))
            (λ r. absurd (f.no_table a k r))
      | inr other' ↦
          rw (installed_others a k (ground arith), installed_others b l (ground arith))
            (v.apart a b k l n)
    ]
  ]

  pub initialize_pagetable-Installed : Installed m (initialize_pagetable m dir t d) dir d t
  initialize_pagetable-Installed = rw initialize_eq (record {
    map = record {
      based = v.based;
      absent = installed_absent;
      present = installed_present;
      apart = installed_apart;
    };
    same = installed-SameEntries;
    table = installed_table;
    present = installed_odd;
    others = installed_others;
  })

-- The page number `x` has the new entry, and every other page has the entry it had.
pub record Entered (m m' : Memory) (dir x w : ℕ) : Type 0 where
  pub map : IsMap m' dir
  pub tables : SameTables m m' dir
  pub entries : (y : ℕ) → y < 2 ^ 20 → entry m' dir y ≡ (if y == x then w else entry m dir y)

module _ (m : Memory) (dir v p flags : ℕ) (i : IsMap m dir) (below : v < 2 ^ 32)
    (odd : m (at dir (index_pd v)) % 2 ≡ 1) (page : p % 4096 ≡ 0) where
  abbrev pd : ℕ
  pd = index_pd v

  abbrev dir_word : ℕ
  dir_word = word (pd_table m dir pd) (bit_or (pd_flags m dir pd) flags)

  abbrev linked : Memory
  linked = set_word m (at dir pd) dir_word

  map_entry_eq :
      map_entry m dir v p flags
      ≡ set_word linked (at (pd_table m dir pd) (index_pt v)) (word p flags)
  unfolding map_entry
  map_entry_eq =
      rw
        (
          present_word (pd_table m dir pd) (bit_or (pd_flags m dir pd) flags) (omega arith),
          present_word p flags page,
        )
        refl

  dir_word-aligned : (aligned dir_word ≡ pd_table m dir pd) × (dir_word % 2 ≡ 1)
  dir_word-aligned =
      aligned-word (pd_table m dir pd) (bit_or (pd_flags m dir pd) flags) (omega arith)

  linked-SameTables : SameTables m linked dir
  linked-SameTables =
      write_dir-SameTables m dir i pd dir_word (omega arith) dir_word-aligned.0
        (dir_word-aligned.1 ∙ sym odd)

  linked-SameEntries : SameEntries m linked dir
  linked-SameEntries =
      write_dir-SameEntries m dir i pd dir_word (omega arith) dir_word-aligned.0
        (dir_word-aligned.1 ∙ sym odd)

  linked-IsMap : IsMap linked dir
  linked-IsMap = SameTables-IsMap m linked dir i linked-SameTables

  linked_table : pd_table linked dir pd ≡ pd_table m dir pd
  linked_table = (linked-SameTables pd (omega arith)).0

  table_some : pd_table linked dir pd ≢ 0
  table_some = rw linked_table (i.present pd (omega arith) odd).0

  abbrev written : ℕ → Memory
  written table = set_word linked (at table (index_pt v)) (word p flags)

  written-Entered : Entered m (written (pd_table linked dir pd)) dir (v / 4096) (word p flags)
  written-Entered =
      let slots =
        write_slot-SameTables linked dir linked-IsMap pd (index_pt v) (word p flags) (omega arith)
          (omega arith) table_some in
      record {
        map = SameTables-IsMap linked _ dir linked-IsMap slots;
        tables =
            λ d h. let a = slots d h in let b = linked-SameTables d h in (a.0 ∙ b.0, a.1 ∙ b.1);
        entries = λ y h.
            let place : pd * 1024 + index_pt v ≡ v / 4096 = omega arith in
            write_slot-entry linked dir linked-IsMap pd (index_pt v) (word p flags) (omega arith)
              (omega arith) table_some y h
            ∙ rw (place, linked-SameEntries y h) refl;
      }

  pub map_entry-Entered : Entered m (map_entry m dir v p flags) dir (v / 4096) (word p flags)
  map_entry-Entered = rw map_entry_eq (
      subst (λ t. Entered m (written t) dir (v / 4096) (word p flags)) linked_table written-Entered)
