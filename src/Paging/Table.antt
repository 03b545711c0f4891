-- ===== src/Paging/Table.antt =====
-- What a page directory says of each page, and how one write changes it.
use pentinum_os.Base.{
  ℕ, zero, suc, ◌+◌, ◌*◌, ◌/◌, ◌%◌, ◌<◌, ◌≡◌, ◌≢◌, bit_or, ◌==◌, if◌then◌else◌, arith, refl, sym,
  ◌∙◌, ap,
}
use pentinum_os.Base.Bits.{bit_or_step, bit_or-zero, or_page}
use pentinum_os.Paging.{Memory, set_word, at, low, aligned, pd_table, fill}

-- The table entry of page number `x`, or 0 where there is no table.
abbrev pub entry : Memory → ℕ → ℕ → ℕ
entry m dir x =
    let table = pd_table m dir (x / 1024) in if table == 0 then 0 else m (at table (x % 1024))

-- Each present directory entry has a table of its own, apart from the directory; an absent one has
-- none.
pub record IsMap (m : Memory) (dir : ℕ) : Type 0 where
  pub based : dir % 4096 ≡ 0
  pub absent : (d : ℕ) → d < 1024 → m (at dir d) % 2 ≡ 0 → pd_table m dir d ≡ 0
  pub present :
      (d : ℕ) → d < 1024 → m (at dir d) % 2 ≡ 1 → (pd_table m dir d ≢ 0) × (pd_table m dir d ≢ dir)
  pub apart :
      (d e : ℕ)
      → d < 1024
      → e < 1024
      → d ≢ e
      → pd_table m dir d ≡ pd_table m dir e
      → pd_table m dir d ≡ 0

-- A page-aligned word with flags, marked as present.
pub word : ℕ → ℕ → ℕ
word w flags = (w + flags % 4096) / 2 * 2 + 1

pub present_word : (w flags : ℕ) → w % 4096 ≡ 0 → bit_or (bit_or w (low flags)) 1 ≡ word w flags
unfolding word
present_word w flags h =
    let page : 4096 * (w / 4096) ≡ w = omega arith in
    let joined : bit_or w (flags % 4096) ≡ w + flags % 4096 =
      ap (λ t. bit_or t (flags % 4096)) (sym page)
      ∙ or_page (w / 4096) (flags % 4096) (omega arith)
      ∙ ap (λ t. t + flags % 4096) page in
    rw joined
      (omega (arith, bit_or_step (w + flags % 4096) 1, bit_or-zero ((w + flags % 4096) / 2)))

pub aligned-word :
    (w flags : ℕ) → w % 4096 ≡ 0 → (aligned (word w flags) ≡ w) × (word w flags % 2 ≡ 1)
unfolding word
aligned-word w flags h = (omega arith, omega arith)

pub set_word_same : (m : Memory) (a w : ℕ) → set_word m a w a ≡ w
unfolding set_word
set_word_same m a w = ground arith

pub set_word_other : (m : Memory) (a w x : ℕ) → x ≢ a → set_word m a w x ≡ m x
unfolding set_word
set_word_other m a w x h = ground arith

pub fill_in : (m : Memory) (t w n i : ℕ) → i < n → fill m t w n (at t i) ≡ w
unfolding fill set_word
fill_in m t w zero i h = absurd (omega arith)
fill_in m t w (suc n) i h = ground (arith, fill_in m t w n i)

pub fill_out : (m : Memory) (t w n x : ℕ) → ((i : ℕ) → i < n → x ≢ at t i) → fill m t w n x ≡ m x
unfolding fill set_word
fill_out m t w zero x h = refl
fill_out m t w (suc n) x h = ground (arith, h n, fill_out m t w n x (λ i l. h i (omega arith)))

pub low-word : (w flags : ℕ) → w % 4096 ≡ 0 → low (word w flags) ≡ flags % 4096 / 2 * 2 + 1
unfolding word
low-word w flags h = omega arith
