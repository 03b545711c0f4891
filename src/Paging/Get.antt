-- ===== src/Paging/Get.antt =====
-- The lookups of c-kernel/arch/paging/paging.c: `x86_get_map`, `x86_get_flags`, `x86_get_phys_addr`.
use pentinum_os.Base.{
  ℕ, ◌+◌, ◌-◌, ◌*◌, ◌/◌, ◌%◌, ◌^◌, ◌≤◌, ◌<◌, ◌≡◌, false, add32, ◌==◌, if◌then◌else◌, arith, refl,
  sym, ◌∙◌, ap, inl, inr,
}
use mathlib.Core.Path.{subst}
use pentinum_os.Base.Bits.{bit_and-zero}
use pentinum_os.Paging.{
  Memory, low, aligned, pd_table, pd_flags, index_pd, index_pt, no_table, enopage, esuccess, enomem,
  x86_get_map, x86_get_flags, x86_get_phys_addr, x86_map_pages,
}
use pentinum_os.Paging.Table.{entry, IsMap, word, low-word, aligned-word}
use pentinum_os.Paging.Round.{IsFresh}
use pentinum_os.Paging.Map.{Mapped, x86_map_pages-Mapped}

pub no_table_eq : (m : Memory) (dir d : ℕ) → no_table m dir d ≡ (pd_table m dir d == 0)
no_table_eq m dir d = rw (bit_and-zero (pd_flags m dir d)) (ground arith)

module _ (m : Memory) (dir v : ℕ) (below : v < 2 ^ 32) where
  abbrev table : ℕ
  table = pd_table m dir (v / 4096 / 1024)

  split_pd : index_pd (aligned v) ≡ v / 4096 / 1024
  split_pd = omega arith

  split_pt : index_pt (aligned v) ≡ v / 4096 % 1024
  split_pt = omega arith

  get_map-entry :
      x86_get_map m dir v
      ≡ (if table == 0 then enopage else add32 (aligned (entry m dir (v / 4096))) (low v))
  unfolding x86_get_map
  get_map-entry = rw (split_pd, split_pt, no_table_eq m dir (v / 4096 / 1024)) (ground arith)

  get_flags-entry :
      x86_get_flags m dir v ≡ (if table == 0 then enopage else low (entry m dir (v / 4096)))
  unfolding x86_get_flags
  get_flags-entry = rw (split_pd, split_pt, no_table_eq m dir (v / 4096 / 1024)) (ground arith)

  phys_addr-get_map : x86_get_phys_addr m dir v ≡ x86_get_map m dir v
  unfolding x86_get_phys_addr x86_get_map
  phys_addr-get_map = refl

  -- At a page whose entry is a present word.
  module _ (frame flags : ℕ) (h : frame < 2 ^ 20)
      (e : entry m dir (v / 4096) ≡ word (frame * 4096) flags) where
    some_table : (table == 0) ≡ false
    some_table = ground (arith, aligned-word (frame * 4096) flags (omega arith))

    pub get_map-word : x86_get_map m dir v ≡ frame * 4096 + v % 4096
    get_map-word =
        get_map-entry
        ∙ rw (e, some_table, (aligned-word (frame * 4096) flags (omega arith)).0) (omega arith)

    pub get_flags-word : x86_get_flags m dir v ≡ flags % 4096 / 2 * 2 + 1
    get_flags-word =
        get_flags-entry ∙ rw (e, some_table) (low-word (frame * 4096) flags (omega arith))

    pub get_phys_addr-word : x86_get_phys_addr m dir v ≡ frame * 4096 + v % 4096
    get_phys_addr-word = phys_addr-get_map ∙ get_map-word

map_pages-Mapped :
    (m m' : Memory) (dir vaddress paddress pages flags tables cnt : ℕ)
    → IsMap m dir
    → tables + cnt * 4096 ≤ 2 ^ 32
    → ((k : ℕ) → k < cnt → IsFresh m dir (tables + k * 4096))
    → vaddress / 4096 + pages ≤ 2 ^ 20
    → paddress / 4096 + pages ≤ 2 ^ 20
    → x86_map_pages m dir vaddress paddress pages flags tables cnt ≡ (esuccess, m')
    → Mapped m m' dir
        (vaddress / 4096)
        (paddress / 4096)
        flags
        (vaddress / 4096)
        (vaddress / 4096 + pages)
map_pages-Mapped m m' dir vaddress paddress pages flags tables cnt v ends fresh a b run =
    elim (x86_map_pages-Mapped m dir vaddress paddress pages flags tables cnt v ends fresh a b) [
      | inl (few, failed) ↦
          let codes : enomem ≡ esuccess = ap (λ r. r.0) (sym failed ∙ run) in absurd (omega arith)
      | inr (m1, ran, map, mapped) ↦
          let same : m1 ≡ m' = ap (λ r. r.1) (sym ran ∙ run) in
          subst
            (λ t.
              Mapped m t dir (vaddress / 4096) (paddress / 4096) flags (vaddress / 4096)
                (vaddress / 4096 + pages))
            same mapped
    ]

-- After `x86_map_pages` has succeeded, under the conditions of its theorem, `x86_get_map` and
-- `x86_get_phys_addr` take the byte `o` of the mapped range to the byte `o` of the physical one, and
-- `x86_get_flags` gives the low twelve bits of the flags, with the present bit set.
pub x86_get_map-map_pages :
    (m m' : Memory) (dir vaddress paddress pages flags tables cnt o : ℕ)
    → IsMap m dir
    → tables + cnt * 4096 ≤ 2 ^ 32
    → ((k : ℕ) → k < cnt → IsFresh m dir (tables + k * 4096))
    → vaddress / 4096 + pages ≤ 2 ^ 20
    → paddress / 4096 + pages ≤ 2 ^ 20
    → x86_map_pages m dir vaddress paddress pages flags tables cnt ≡ (esuccess, m')
    → o < pages * 4096
    → (x86_get_map m' dir (aligned vaddress + o) ≡ aligned paddress + o)
      × (x86_get_phys_addr m' dir (aligned vaddress + o) ≡ aligned paddress + o)
      × (x86_get_flags m' dir (aligned vaddress + o) ≡ flags % 4096 / 2 * 2 + 1)
x86_get_map-map_pages m m' dir vaddress paddress pages flags tables cnt o v ends fresh a b run h =
    let at_o : ℕ = aligned vaddress + o in
    let frame : ℕ = paddress / 4096 + o / 4096 in
    let mapped =
      map_pages-Mapped m m' dir vaddress paddress pages flags tables cnt v ends fresh a b run in
    let to : word ((paddress / 4096 + (at_o / 4096 - vaddress / 4096)) * 4096) flags
        ≡ word (frame * 4096) flags =
      ap (λ t. word (t * 4096) flags) (omega arith) in
    let e : entry m' dir (at_o / 4096) ≡ word (frame * 4096) flags =
      ground (arith, mapped (at_o / 4096) (omega arith), to) in
    let below : at_o < 2 ^ 32 = omega arith in
    let low_frame : frame < 2 ^ 20 = omega arith in
    (
      get_map-word m' dir at_o below frame flags low_frame e ∙ omega arith,
      get_phys_addr-word m' dir at_o below frame flags low_frame e ∙ omega arith,
      get_flags-word m' dir at_o below frame flags low_frame e,
    )
