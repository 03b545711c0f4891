-- ===== src/Pagemgr/Virtual/Tables.antt =====
-- The tables that `x86_map_pages` asks for, and its run with as many.
use pentinum_os.Base.{
  ℕ, zero, suc, ◌+◌, ◌*◌, ◌/◌, ◌^◌, ◌≤◌, ◌<◌, ◌≡◌, refl, arith, not, ◌&&◌, ◌==◌, Bool-cases, inl,
  inr,
}
use pentinum_os.Paging.{
  Memory, esuccess, aligned, count_tables, x86_map_pages, x86_map_pages_get_page_count, index_pd,
  page_at, pd_present,
}
use pentinum_os.Paging.Table.{IsMap}
use pentinum_os.Paging.Round.{IsFresh}
use pentinum_os.Paging.Map.{Mapped, x86_map_pages-Mapped}

-- A page takes one table at most.
count_tables-le : (n i last v dir : ℕ) (m : Memory) → count_tables m dir v last i n ≤ n
unfolding count_tables
count_tables-le zero i last v dir m = omega arith
count_tables-le (suc n) i last v dir m =
    elim (Bool-cases
      (not (pd_present m dir (index_pd (page_at v i))) && not (index_pd (page_at v i) == last))) [
        | inl new ↦
            rw new (omega (arith, count_tables-le n (suc i) (index_pd (page_at v i)) v dir m))
        | inr old ↦ rw old (omega (arith, count_tables-le n (suc i) last v dir m))
      ]

pub get_page_count-le : (m : Memory) (dir v n : ℕ) → x86_map_pages_get_page_count m dir v n ≤ n
unfolding x86_map_pages_get_page_count
get_page_count-le m dir v n = count_tables-le n 0 0xFFFFFFFF (aligned v) dir m

get_page_count-aligned :
    (m : Memory) (dir v n : ℕ)
    → x86_map_pages_get_page_count m dir (aligned v) n ≡ x86_map_pages_get_page_count m dir v n
unfolding x86_map_pages_get_page_count
get_page_count-aligned m dir v n =
    let twice : aligned (aligned v) ≡ aligned v = omega arith in rw twice refl

-- `x86_map_pages` with as many tables as it asks for.
pub maps_all :
    (m : Memory) (dir v paddress n flags tables : ℕ)
    → IsMap m dir
    → tables + x86_map_pages_get_page_count m dir v n * 4096 ≤ 2 ^ 32
    → ((k : ℕ) → k < x86_map_pages_get_page_count m dir v n → IsFresh m dir (tables + k * 4096))
    → v / 4096 + n ≤ 2 ^ 20
    → paddress / 4096 + n ≤ 2 ^ 20
    → (m' : Memory) × (x86_map_pages m dir v paddress n flags tables
          (x86_map_pages_get_page_count m dir v n)
        ≡ (esuccess, m'))
      × IsMap m' dir
      × Mapped m m' dir (v / 4096) (paddress / 4096) flags (v / 4096) (v / 4096 + n)
maps_all m dir v paddress n flags tables map ends fresh a b =
    elim (x86_map_pages-Mapped m dir v paddress n flags tables
      (x86_map_pages_get_page_count m dir v n) map ends fresh a b) [
        | inl few ↦ absurd (omega (arith, few.0, get_page_count-aligned m dir v n))
        | inr done ↦ done
      ]
