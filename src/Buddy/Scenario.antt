-- ===== src/Buddy/Scenario.antt =====
-- The start of the buddy allocator on small memory maps.
use pentinum_os.Base.{◌+◌, ◌^◌, ◌≡◌, refl, List, [], ◌∷◌, map}
use pentinum_os.Buddy.Node.{leaf, ba_split_node, ba_make_child}
use pentinum_os.Buddy.Node.Pages.{page_flags}
use pentinum_os.Buddy.Flags.{
  merge, done, panic, fault, pnode_validate_flags_update, set_upwards, pnode_repair_tree,
  pnode_set_flags,
}
use pentinum_os.Buddy.Find.{ba_find_node, find_down}
use pentinum_os.Buddy.Leaves.{ba_get_next_leaf, climb_next, ba_get_min_leaf}
use pentinum_os.Buddy.Mark.{ba_mark_stack, ba_mark_pages, mark_loop}
use pentinum_os.Buddy.Init.{
  E820MmapEntry, KernelInfo, Reserved, initialize_buddy_allocator, mark_mmap, mark_kernel,
  mark_region, hdf_mmap_entry_type,
}
use pentinum_os.Cstd.Math.{div_ceil, div_floor}

-- A memory map with a reserved region of three pages, a kernel of one page and two reserved ranges.
abbrev boot_info : List E820MmapEntry → KernelInfo
boot_info entries = record {
  e820_mmap = entries;
  kernel_map = (record { section_begin = 0x100000; section_size = 0x1000 }) ∷ [];
  paging_info = record { page_directory = 0x8000; table_count = 1; page_table_array = 0x9000 };
}

abbrev boot_reserved : Reserved
boot_reserved = record {
  stack_rsvd_start = 0x200000;
  stack_rsvd_end = 0x201000;
  heap_rsvd_start = 0x201000;
  heap_rsvd_end = 0x202000;
}

init_run :
    elim (initialize_buddy_allocator 200
      (boot_info (record { base_address = 0; region_size = 0x3000; region_type = 2 } ∷ []))
      boot_reserved) [
        | done e t ↦ map (page_flags t) (0 ∷ 1 ∷ 2 ∷ 3 ∷ 8 ∷ 9 ∷ 0x100 ∷ 0x200 ∷ 0x201 ∷ 0xB8 ∷ [])
        | panic ↦ []
        | fault ↦ []
      ]
    ≡ 0x0c ∷ 0x0c ∷ 0x0c ∷ 0x09 ∷ 0x12 ∷ 0x12 ∷ 0x12 ∷ 0x12 ∷ 0x12 ∷ 0x12 ∷ []
unfolding initialize_buddy_allocator mark_mmap mark_kernel mark_region hdf_mmap_entry_type
    ba_mark_stack div_ceil div_floor ba_mark_pages mark_loop pnode_set_flags
    pnode_validate_flags_update set_upwards pnode_repair_tree ba_find_node find_down ba_split_node
    ba_make_child ba_get_next_leaf climb_next ba_get_min_leaf merge
init_run = refl

-- A free region that starts at an even page: its first two pages are merged while it is marked.
free_region_run :
    mark_mmap 200
      (leaf 0 0x09 20)
      (record { base_address = 0x100000; region_size = 0x3000; region_type = 1 } ∷ [])
    ≡ fault
unfolding mark_mmap mark_region hdf_mmap_entry_type div_ceil div_floor ba_mark_pages mark_loop
    pnode_set_flags pnode_validate_flags_update set_upwards pnode_repair_tree ba_find_node find_down
    ba_split_node ba_make_child ba_get_next_leaf climb_next ba_get_min_leaf merge
free_region_run = refl

-- A region above 4 GiB is marked at its page number's last 20 bits.
high_region_run :
    elim (mark_mmap 200
      (leaf 0 0x09 20)
      (record { base_address = 2 ^ 32 + 0x5000; region_size = 0x1000; region_type = 2 } ∷ [])) [
        | done e t ↦ map (page_flags t) (4 ∷ 5 ∷ 6 ∷ [])
        | panic ↦ []
        | fault ↦ []
      ]
    ≡ 0x09 ∷ 0x0c ∷ 0x09 ∷ []
unfolding mark_mmap mark_region hdf_mmap_entry_type div_ceil div_floor ba_mark_pages mark_loop
    pnode_set_flags pnode_validate_flags_update set_upwards pnode_repair_tree ba_find_node find_down
    ba_split_node ba_make_child ba_get_next_leaf climb_next ba_get_min_leaf merge
high_region_run = refl
