-- ===== src/Tests/Runs.antt =====
-- Runs of the functions on that file.
use se_l4cp_poc.Prelude.{ℕ, ◌≡◌, refl, [], ◌∷◌}
use se_l4cp_poc.Machine.State.{stored8, stored32, Trace}
use se_l4cp_poc.Machine.Run.{
  Run, ok, fail, crash, out_of_fuel, final, ◌>>=◌, invoke, try, read_register,
}
use se_l4cp_poc.Elf.{
  load8, load16, load32, load64, elf_header, elf_program_header, elf_section_header,
  elf_symbol_table_entry, are_equal_from, are_equal, find_symbol_table, scan_symbols, search_table,
  get_symbol,
}
use se_l4cp_poc.Caps.{
  insist, delete_temp_cap, set_priority, set_sched_flags, mint_channel, set_up_channel, set_up_irq,
  pd_restart, pd_stop,
}
use se_l4cp_poc.Paging.{
  mask_bits, parse_cap_rights, parse_vm_attributes, conclude_level, ensure_level,
  set_up_required_paging_structures, conclude_page, map_new_page, allocate_page, ensure_temp_page,
  require, map_temp_page, allocate_page_with_write_handle,
}
use se_l4cp_poc.Rights.{
  access_right_table, map_shared_page, share_page, share_pages, set_up_scheduling,
  set_up_channel_right, set_up_memory_region, set_up_irq_right, set_up_access_right,
  set_up_access_rights_from, set_up_access_rights, has_control_case, has_control_from,
  has_protection_domain_control_access_right,
}
use se_l4cp_poc.Load.{
  set_up_ipc_buffer, get_pd_id_vaddr, write_elf_data, ensure_page_is_allocated, write_step,
  write_bytes, write_zeros, load_segment, load_if_loadable, load_segments, find_pd_id_vaddr,
  pd_load_elf,
}
use se_l4cp_poc.Create.{
  move_pool_cap, move_pool_caps_from, move_pool_caps, move_unused_caps, take_cap,
  move_if_controlling, copy_cap, share_fixed_caps, share_own_cap, share_own_caps, build_pd,
  pd_create,
}
use se_l4cp_poc.Tests.Elves.{demo_env, demo_world}

-- The stores, the oldest first.
abbrev stores : Trace → Trace → Trace
stores acc [] = acc
stores acc (stored8 a v ∷ t) = stores (stored8 a v ∷ acc) t
stores acc (stored32 a v ∷ t) = stores (stored32 a v ∷ acc) t
stores acc (ev ∷ t) = stores acc t

abbrev outcome : {A : Type 0} → Run A → ℕ
outcome (ok a w) = 0
outcome (fail w) = 1
outcome (crash n w) = 2
outcome (out_of_fuel w) = 3

created : Run (Unit {0})
unfolding ◌>>=◌ invoke try read_register load8 load16 load32 load64 elf_header elf_program_header
    elf_section_header elf_symbol_table_entry are_equal_from are_equal find_symbol_table
    scan_symbols search_table get_symbol insist delete_temp_cap set_priority set_sched_flags
    mint_channel set_up_channel set_up_irq pd_restart pd_stop mask_bits parse_cap_rights
    parse_vm_attributes conclude_level ensure_level set_up_required_paging_structures conclude_page
    map_new_page allocate_page ensure_temp_page require map_temp_page
    allocate_page_with_write_handle access_right_table map_shared_page share_page share_pages
    set_up_scheduling set_up_channel_right set_up_memory_region set_up_irq_right set_up_access_right
    set_up_access_rights_from set_up_access_rights has_control_case has_control_from
    has_protection_domain_control_access_right set_up_ipc_buffer get_pd_id_vaddr write_elf_data
    ensure_page_is_allocated write_step write_bytes write_zeros load_segment load_if_loadable
    load_segments find_pd_id_vaddr pd_load_elf move_pool_cap move_pool_caps_from move_pool_caps
    move_unused_caps take_cap move_if_controlling copy_cap share_fixed_caps share_own_cap
    share_own_caps build_pd pd_create
created = pd_create 1 0x1000 demo_env demo_world

outcome-created : outcome created ≡ 0
unfolding created
outcome-created = refl

-- The identifier at the end of the first page, then the rest of the segment in the second.
stores-created :
    stores [] (final created).trace
    ≡ stored32 0x101ffc 1
      ∷ stored8 0x101000 14
      ∷ stored8 0x101001 15
      ∷ stored8 0x101002 0
      ∷ stored8 0x101003 0
      ∷ []
unfolding created
stores-created = refl
