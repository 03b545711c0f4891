-- ===== src/Buddy/Init.antt =====
-- `initialize_buddy_allocator` of c-kernel/syscore/mem/buddy.c, from the memory map of the firmware
-- and the information that the boot loader hands over (c-kernel/boot/handoff).
use pentinum_os.Base.{
  ℕ, ◌+◌, ◌-◌, ◌/◌, ◌%◌, ◌^◌, bit_or, Bool, true, false, List, [], ◌∷◌, if◌then◌else◌, ◌==◌, sub32,
}
use pentinum_os.Buddy.Node.{
  BaNode, leaf, pnode_free, pnode_used, pnode_blocked, pnode_unmapped, pnode_on_ram,
}
use pentinum_os.Buddy.Flags.{Run, done, panic, fault, esuccess}
use pentinum_os.Buddy.Mark.{ba_mark_pages, ba_mark_stack, and_then}
use pentinum_os.Cstd.Math.{div_ceil, div_floor}

pub record E820MmapEntry : Type 0 where
  pub base_address : ℕ
  pub region_size : ℕ
  pub region_type : ℕ

pub record KernelMapEntry : Type 0 where
  pub section_begin : ℕ
  pub section_size : ℕ

pub record PagingInfo : Type 0 where
  pub page_directory : ℕ
  pub table_count : ℕ
  pub page_table_array : ℕ

pub record KernelInfo : Type 0 where
  pub e820_mmap : List E820MmapEntry
  pub kernel_map : List KernelMapEntry
  pub paging_info : PagingInfo

-- The symbols of the linker script that bound the reserved stacks and heaps.
pub record Reserved : Type 0 where
  pub stack_rsvd_start : ℕ
  pub stack_rsvd_end : ℕ
  pub heap_rsvd_start : ℕ
  pub heap_rsvd_end : ℕ

abbrev pub pnode_acpi : ℕ
pnode_acpi = 0x00

unfoldable pub hdf_mmap_entry_type : E820MmapEntry → ℕ
hdf_mmap_entry_type entry =
    let type = entry.region_type in
    if type == 0
    then bit_or pnode_on_ram pnode_blocked
    else if type == 1
    then bit_or pnode_on_ram pnode_free
    else if type == 2
    then bit_or pnode_unmapped pnode_blocked
    else if type == 3
    then bit_or pnode_on_ram pnode_acpi
    else if type == 4
    then bit_or (bit_or pnode_on_ram pnode_acpi) pnode_blocked
    else bit_or pnode_unmapped pnode_blocked

-- `if(err != ESUCCESS) return err;`
abbrev pub on_success : (BaNode → Run) → Run → Run
on_success rest (done e t) = if e == esuccess then rest t else done e t
on_success rest panic = panic
on_success rest fault = fault

-- The pages of a region of bytes, less the null page, given the word that the sum wraps at.
unfoldable pub mark_region : ℕ → BaNode → ℕ → ℕ → ℕ → ℕ → Bool → Run
mark_region cap t wrap begin size flag bypass =
    let page_addr = div_floor begin 4096 % 2 ^ 32 in
    let page_cnt = (div_ceil ((begin + size) % wrap) 4096 + 2 ^ 64 - page_addr) % 2 ^ 32 in
    if page_addr == 0
    then ba_mark_pages cap t 1 (sub32 page_cnt 1) flag bypass false
    else ba_mark_pages cap t page_addr page_cnt flag bypass false

unfoldable pub mark_mmap : ℕ → BaNode → List E820MmapEntry → Run
mark_mmap cap t [] = done esuccess t
mark_mmap cap t (entry ∷ entries) =
    on_success (λ t'. mark_mmap cap t' entries)
      (mark_region cap t (2 ^ 64) entry.base_address entry.region_size (hdf_mmap_entry_type entry)
        true)

unfoldable pub mark_kernel : ℕ → BaNode → List KernelMapEntry → Run
mark_kernel cap t [] = done esuccess t
mark_kernel cap t (entry ∷ entries) =
    on_success (λ t'. mark_kernel cap t' entries)
      (mark_region cap t (2 ^ 32) entry.section_begin entry.section_size
        (bit_or pnode_on_ram pnode_used) false)

abbrev pub mark_used : ℕ → ℕ → ℕ → BaNode → Run
mark_used cap page page_cnt t =
    ba_mark_pages cap t page page_cnt (bit_or pnode_on_ram pnode_used) false false

-- One node of all pages, which is then marked; `cap` is the number of pairs of children that the heap
-- holds. The null page is marked without a test of the result.
unfoldable pub initialize_buddy_allocator : ℕ → KernelInfo → Reserved → Run
initialize_buddy_allocator cap info reserved =
    and_then
      (λ t0.
        on_success
          (λ t1.
            on_success
              (λ t2.
                on_success
                  (λ t3.
                    on_success
                      (λ t4.
                        on_success
                          (λ t5. on_success (mark_used cap (0xB8000 / 4096) 1) (
                            mark_used cap (info.paging_info.page_table_array / 4096)
                              (info.paging_info.table_count % 2 ^ 32) t5))
                          (mark_used cap (info.paging_info.page_directory / 4096) 1 t4))
                      (ba_mark_stack cap t3 reserved.heap_rsvd_start reserved.heap_rsvd_end))
                  (ba_mark_stack cap t2 reserved.stack_rsvd_start reserved.stack_rsvd_end))
              (mark_kernel cap t1 info.kernel_map))
          (mark_mmap cap t0 info.e820_mmap))
      (ba_mark_pages cap (leaf 0 (bit_or pnode_unmapped pnode_free) 20) 0 1
        (bit_or pnode_unmapped pnode_blocked) true false)
