-- ===== src/Paging/Create.antt =====
-- New directories: `x86_construct_pagetable` and `x86_copy_pagetable` of
-- c-kernel/arch/paging/paging.c.
use pentinum_os.Base.{
  ℕ, zero, suc, ◌/◌, ◌%◌, ◌^◌, ◌<◌, ◌≡◌, ◌≢◌, ◌==◌, if◌then◌else◌, arith, refl, ◌∙◌, ap, inl, inr,
  Bool-cases,
}
use pentinum_os.Paging.{
  Memory, at, pd_table, copy_words, x86_construct_pagetable, x86_copy_pagetable,
}
use pentinum_os.Paging.Table.{entry, IsMap, fill_in, set_word_other, set_word_same}
use pentinum_os.Paging.Round.{IsFresh}

module _ (m : Memory) (page : ℕ) (h : page % 4096 ≡ 0) where
  abbrev made : Memory
  made = x86_construct_pagetable m page

  made_word : (d : ℕ) → d < 1024 → made (at page d) ≡ 2
  unfolding x86_construct_pagetable
  made_word d l = fill_in m page 2 1024 d l

  made_table : (d : ℕ) → d < 1024 → pd_table made page d ≡ 0
  made_table d l = rw (made_word d l) refl

  -- A directory made at a page-aligned address is intact, and leads no page anywhere.
  pub x86_construct_pagetable-IsMap :
      IsMap (x86_construct_pagetable m page) page
      × ((x : ℕ) → x < 2 ^ 20 → entry (x86_construct_pagetable m page) page x ≡ 0)
  x86_construct_pagetable-IsMap = (
    record {
      based = h;
      absent = λ d l z. made_table d l;
      present = λ d l o. ground (arith, made_word d l);
      apart = λ d e k l n q. made_table d k;
    },
    λ x l. rw (made_table (x / 1024) (omega arith)) refl,
  )

copied_out :
    (m : Memory) (page src n x : ℕ)
    → ((i : ℕ) → i < n → x ≢ at page i)
    → copy_words m page src n x ≡ m x
unfolding copy_words
copied_out m page src zero x far = refl
copied_out m page src (suc n) x far =
    set_word_other (copy_words m page src n) (at page n) (copy_words m page src n (at src n)) x
      (far n (omega arith))
    ∙ copied_out m page src n x (λ i l. far i (omega arith))

copied_in :
    (m : Memory) (page src n : ℕ)
    → ((i j : ℕ) → i < n → j < n → at src i ≢ at page j)
    → (i : ℕ) → i < n
    → copy_words m page src n (at page i) ≡ m (at src i)
unfolding copy_words
copied_in m page src zero far i l = absurd (omega arith)
copied_in m page src (suc n) far i l =
    let whole = copy_words m page src n in
    elim (Bool-cases (i == n)) [
      | inl same ↦
          let q : i ≡ n = ground arith in
          rw q (
            set_word_same whole (at page n) (whole (at src n))
            ∙ copied_out m page src n (at src n) (λ j k. far n j (omega arith) (omega arith)))
      | inr other ↦
          set_word_other whole (at page n) (whole (at src n)) (at page i) (ground arith)
          ∙ copied_in m page src n (λ a b k j. far a b (omega arith) (omega arith)) i (ground arith)
    ]

module _ (m : Memory) (page src : ℕ) (v : IsMap m src) (f : IsFresh m src page) where
  abbrev copied : Memory
  copied = x86_copy_pagetable m page src

  copied_word : (d : ℕ) → d < 1024 → copied (at page d) ≡ m (at src d)
  unfolding x86_copy_pagetable
  copied_word d l =
      copied_in m page src 1024 (λ i j a b. ground (arith, v.based, f.page, f.no_dir)) d l

  copied_else : (x : ℕ) → ((i : ℕ) → i < 1024 → x ≢ at page i) → copied x ≡ m x
  unfolding x86_copy_pagetable
  copied_else x far = copied_out m page src 1024 x far

  copied-IsMap : IsMap copied page
  copied-IsMap = record {
    based = f.page;
    absent = λ d l. rw (copied_word d l) (v.absent d l);
    present = λ d l. rw (copied_word d l) (λ o. ((v.present d l o).0, f.no_table d l));
    apart = λ d e k l n. rw (copied_word d k, copied_word e l) (v.apart d e k l n);
  }

  -- A directory that is copied to a fresh page is intact there, and leads every page where the
  -- source leads it.
  pub x86_copy_pagetable-IsMap :
      IsMap (x86_copy_pagetable m page src) page
      × ((x : ℕ) → x < 2 ^ 20 → entry (x86_copy_pagetable m page src) page x ≡ entry m src x)
  x86_copy_pagetable-IsMap = (
    copied-IsMap,
    λ x l. rw (copied_word (x / 1024) (omega arith)) (
        ap (λ t. if pd_table m src (x / 1024) == 0 then 0 else t)
          (copied_else (at (pd_table m src (x / 1024)) (x % 1024))
            (λ i k. ground (arith, f.page, f.no_table (x / 1024) (omega arith))))),
  )
