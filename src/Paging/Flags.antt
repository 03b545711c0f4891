-- ===== src/Paging/Flags.antt =====
-- `x86_set_flags_pages` of c-kernel/arch/paging/paging.c.
use pentinum_os.Base.{
  ℕ, ◌+◌, ◌*◌, ◌/◌, ◌%◌, ◌^◌, ◌<◌, ◌≡◌, ◌≢◌, false, bit_or, ◌==◌, if◌then◌else◌, arith, refl, sym,
  ◌∙◌,
}
use pentinum_os.Paging.{
  Memory, set_word, at, aligned, pd_table, pd_flags, index_pd, index_pt, flag_entry,
}
use pentinum_os.Paging.Table.{entry, IsMap, word, aligned-word, present_word}
use pentinum_os.Paging.Page.{
  SameTables, SameTables-IsMap, write_dir-SameTables, write_dir-SameEntries, write_slot-SameTables,
  write_slot-entry,
}

-- The entry `w` with the flags in place of its own, and marked as present.
abbrev pub flagged : ℕ → ℕ → ℕ
flagged flags w = word (aligned w) flags

-- The page `x` has new flags, and every other page has the entry it had.
pub record Flagged (m m' : Memory) (dir x flags : ℕ) : Type 0 where
  pub map : IsMap m' dir
  pub tables : SameTables m m' dir
  pub entries :
      (y : ℕ)
      → y < 2 ^ 20
      → entry m' dir y ≡ (if y == x then flagged flags (entry m dir x) else entry m dir y)

module _ (m : Memory) (dir v flags : ℕ) (i : IsMap m dir) (below : v < 2 ^ 32)
    (has_table : pd_table m dir (index_pd v) ≢ 0) where
  abbrev pd : ℕ
  pd = index_pd v

  abbrev slot : ℕ
  slot = at (pd_table m dir pd) (index_pt v)

  abbrev marked : Memory
  marked = set_word m slot (flagged flags (m slot))

  abbrev dir_word : ℕ
  dir_word = word (pd_table m dir pd) (bit_or (pd_flags marked dir pd) flags)

  flag_entry_eq : flag_entry m dir v flags ≡ set_word marked (at dir pd) dir_word
  unfolding flag_entry
  flag_entry_eq = rw (present_word (aligned (m slot)) flags (omega arith)) (
      rw (present_word (pd_table m dir pd) (bit_or (pd_flags marked dir pd) flags) (omega arith))
        refl)

  slot_tables : SameTables m marked dir
  slot_tables =
      write_slot-SameTables m dir i pd (index_pt v) (flagged flags (m slot)) (omega arith)
        (omega arith) has_table

  marked-IsMap : IsMap marked dir
  marked-IsMap = SameTables-IsMap m marked dir i slot_tables

  odd : m (at dir pd) % 2 ≡ 1
  odd = ground (arith, i.absent pd (omega arith))

  word_facts : (aligned dir_word ≡ pd_table m dir pd) × (dir_word % 2 ≡ 1)
  word_facts =
      aligned-word (pd_table m dir pd) (bit_or (pd_flags marked dir pd) flags) (omega arith)

  dir_tables : SameTables marked (set_word marked (at dir pd) dir_word) dir
  dir_tables =
      write_dir-SameTables marked dir marked-IsMap pd dir_word (omega arith)
        (word_facts.0 ∙ sym (slot_tables pd (omega arith)).0)
        (word_facts.1 ∙ sym odd ∙ sym (slot_tables pd (omega arith)).1)

  slot-entry : m slot ≡ entry m dir (v / 4096)
  slot-entry =
      let d : v / 4096 / 1024 ≡ pd = omega arith in
      let held : (pd_table m dir pd == 0) ≡ false = ground arith in rw (d, held) refl

  pub flag_entry-Flagged : Flagged m (flag_entry m dir v flags) dir (v / 4096) flags
  flag_entry-Flagged = rw flag_entry_eq (record {
    map = SameTables-IsMap marked _ dir marked-IsMap dir_tables;
    tables = λ d h. let a = slot_tables d h in let b = dir_tables d h in (b.0 ∙ a.0, b.1 ∙ a.1);
    entries = λ y h.
        let place : pd * 1024 + index_pt v ≡ v / 4096 = omega arith in
        write_dir-SameEntries marked dir marked-IsMap pd dir_word (omega arith)
          (word_facts.0 ∙ sym (slot_tables pd (omega arith)).0)
          (word_facts.1 ∙ sym odd ∙ sym (slot_tables pd (omega arith)).1) y h
        ∙ write_slot-entry m dir i pd (index_pt v) (flagged flags (m slot)) (omega arith)
            (omega arith) has_table y h
        ∙ rw (place, slot-entry) refl;
  })
