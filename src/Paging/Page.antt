-- ===== src/Paging/Page.antt =====
-- One round of `x86_map_pages` in c-kernel/arch/paging/paging.c: the new table and the two writes.
use pentinum_os.Base.{
  ℕ, ◌+◌, ◌*◌, ◌/◌, ◌%◌, ◌^◌, ◌<◌, ◌≡◌, ◌≢◌, false, ◌==◌, if◌then◌else◌, arith, refl, sym, ◌∙◌, inl,
  inr, Bool-cases,
}
use pentinum_os.Paging.{Memory, set_word, at, aligned, pd_table}
use pentinum_os.Paging.Table.{entry, IsMap, set_word_same, set_word_other}

-- Every page has the entry it had.
abbrev pub SameEntries : Memory → Memory → ℕ → Type 0
SameEntries m m' dir = (x : ℕ) → x < 2 ^ 20 → entry m' dir x ≡ entry m dir x

-- The directory entries lead to the tables they led to, and are present where they were.
abbrev pub SameTables : Memory → Memory → ℕ → Type 0
SameTables m m' dir =
    (d : ℕ)
    → d < 1024
    → (pd_table m' dir d ≡ pd_table m dir d) × (m' (at dir d) % 2 ≡ m (at dir d) % 2)

pub SameTables-IsMap : (m m' : Memory) (dir : ℕ) → IsMap m dir → SameTables m m' dir → IsMap m' dir
SameTables-IsMap m m' dir v same = record {
  based = v.based;
  absent = λ d h z. (same d h).0 ∙ v.absent d h (sym (same d h).1 ∙ z);
  present =
      λ d h o. let old = v.present d h (sym (same d h).1 ∙ o) in ground (arith, same d h, old);
  apart = λ d e h k n q. (same d h).0 ∙ v.apart d e h k n (sym (same d h).0 ∙ q ∙ (same e k).0);
}

module _ (m : Memory) (dir : ℕ) (v : IsMap m dir) where
  -- A table's slot is no slot of the directory.
  slot_apart :
      (d e i : ℕ)
      → d < 1024
      → e < 1024
      → i < 1024
      → pd_table m dir d ≢ 0
      → at (pd_table m dir d) i ≢ at dir e
  slot_apart d e i h k l n = ground (arith, v.based, v.absent d h, v.present d h)

  module _ (d w : ℕ) (h : d < 1024) (table : aligned w ≡ pd_table m dir d)
      (parity : w % 2 ≡ m (at dir d) % 2) where
    pub write_dir-SameTables : SameTables m (set_word m (at dir d) w) dir
    write_dir-SameTables e k = elim (Bool-cases (e == d)) [
      | inl same ↦
          let q : e ≡ d = ground arith in rw (q, set_word_same m (at dir d) w) (table, parity)
      | inr other ↦ rw (set_word_other m (at dir d) w (at dir e) (ground arith)) (refl, refl)
    ]

    pub write_dir-SameEntries : SameEntries m (set_word m (at dir d) w) dir
    write_dir-SameEntries x k =
        rw (write_dir-SameTables (x / 1024) (omega arith)).0
          (elim (Bool-cases (pd_table m dir (x / 1024) == 0)) [
            | inl gone ↦ rw gone refl
            | inr held ↦ rw held (
                set_word_other m (at dir d) w (at (pd_table m dir (x / 1024)) (x % 1024))
                  (slot_apart (x / 1024) d (x % 1024) (omega arith) h (omega arith) (ground arith)))
          ])

  -- A write to the slot `i` of the table of entry `d`.
  module _ (d i w : ℕ) (h : d < 1024) (l : i < 1024) (o : pd_table m dir d ≢ 0) where
    abbrev slot_written : Memory
    slot_written = set_word m (at (pd_table m dir d) i) w

    pub dir_kept : (e : ℕ) → e < 1024 → slot_written (at dir e) ≡ m (at dir e)
    dir_kept e k =
        set_word_other m (at (pd_table m dir d) i) w (at dir e)
          (λ q. slot_apart d e i h k l o (sym q))

    pub write_slot-SameTables : SameTables m slot_written dir
    write_slot-SameTables e k = rw (dir_kept e k) (refl, refl)

    pub write_slot-entry :
        (x : ℕ)
        → x < 2 ^ 20
        → entry slot_written dir x ≡ (if x == d * 1024 + i then w else entry m dir x)
    write_slot-entry x k =
        rw (dir_kept (x / 1024) (omega arith)) (elim (Bool-cases (x == d * 1024 + i)) [
          | inl same ↦
              let e : x / 1024 ≡ d = ground arith in
              let f : x % 1024 ≡ i = ground arith in
              let held : (pd_table m dir d == 0) ≡ false = ground arith in
              rw (same, e, f, held) (set_word_same m (at (pd_table m dir d) i) w)
          | inr other ↦ rw other (other_slot (ground arith))
        ])
      where
        other_slot :
            x ≢ d * 1024 + i
            → (if pd_table m dir (x / 1024) == 0
                then 0
                else slot_written (at (pd_table m dir (x / 1024)) (x % 1024)))
              ≡ entry m dir x
        other_slot n = elim (Bool-cases (pd_table m dir (x / 1024) == 0)) [
          | inl gone ↦ rw gone refl
          | inr held ↦ rw held (
              set_word_other m (at (pd_table m dir d) i) w
                (at (pd_table m dir (x / 1024)) (x % 1024))
                (λ q. ground (arith, v.apart (x / 1024) d (omega arith) h, n)))
        ]
