-- ===== src/Paging.antt =====
-- The page tables and pages of a new protection domain: `sel4cp_internal_mask_bits`,
-- `_parse_cap_rights`, `_parse_vm_attributes`, `_set_up_required_paging_structures`,
-- `_allocate_page` and `_allocate_page_with_write_handle`.
pub mod Steps
pub mod Halts
pub mod Reasons
pub mod Fresh
use se_l4cp_poc.Prelude.{
  ℕ, ◌+◌, ◌-◌, ◌*◌, ◌/◌, ◌%◌, ◌^◌, Bool, true, false, String, leb, ◌==◌, if◌then◌else◌, bit_or,
}
use se_l4cp_poc.Prelude.Words.{u8, u32, u64, test_bit}
use se_l4cp_poc.Kernel.{
  sel4_no_error, sel4_delete_first, sel4_read_write, sel4_can_read, sel4_all_rights,
}
use se_l4cp_poc.Layout.{
  Pool, page_upper_directories, page_directories, page_tables, pages, pool_num, pool_base,
  base_page_pool, base_cnode_cap, base_vspace_cap, temp_cap, pd_cap_bits, p_flags_writable_bit,
  p_flags_executable_bit, sel4_arm_page_cacheable, sel4_arm_parity_enabled, sel4_arm_execute_never,
  sel4_arm_default_vmattributes,
}
use se_l4cp_poc.Machine.State.{
  World, Env, Call, arm_page_upper_directory_map, arm_page_directory_map, arm_page_table_map,
  arm_page_map, cnode_copy, temp_page_vaddr,
}
use se_l4cp_poc.Machine.Run.{
  Prog, ◌>>=◌, ◌>>◌, pure, failure, on_fail, ask, gets, dbg_puts, dbg_puthex64, invoke, get_idx,
  increment, prepare_temp_page,
}
use se_l4cp_poc.Caps.{delete_temp_cap}

unfoldable pub mask_bits : (n num_bits : ℕ) → ℕ
mask_bits n num_bits = n / 2 ^ num_bits * 2 ^ num_bits

unfoldable pub parse_cap_rights : ℕ → ℕ
parse_cap_rights memory_flags =
    if test_bit memory_flags p_flags_writable_bit then sel4_read_write else sel4_can_read

unfoldable pub parse_vm_attributes : ℕ → Bool → ℕ
parse_vm_attributes memory_flags cached =
    let result = sel4_arm_parity_enabled in
    let result = if cached then bit_or result sel4_arm_page_cacheable else result in
    if test_bit memory_flags p_flags_executable_bit
    then result
    else bit_or result sel4_arm_execute_never

-- The three levels of tables below the VSpace, for each of which
-- `sel4cp_internal_set_up_required_paging_structures` has the same block of code.
pub data Level : Type 0 where
  upper_directory directory table : Level

abbrev pub level_pool : Level → Pool
level_pool upper_directory = page_upper_directories
level_pool directory = page_directories
level_pool table = page_tables

-- How many low bits of an address a table of the level resolves.
abbrev pub level_bits : Level → ℕ
level_bits upper_directory = 12 + 9 + 9 + 9
level_bits directory = 12 + 9 + 9
level_bits table = 12 + 9

abbrev pub level_map : Level → (service vspace vaddr attr : ℕ) → Call
level_map upper_directory = arm_page_upper_directory_map
level_map directory = arm_page_directory_map
level_map table = arm_page_table_map

abbrev pub none_available : Level → String
none_available upper_directory =
    "sel4cp_internal_set_up_required_paging_structures: no page upper directories are available; allocate more and try again\n"
none_available directory =
    "sel4cp_internal_set_up_required_paging_structures: no page directories are available; allocate more and try again\n"
none_available table =
    "sel4cp_internal_set_up_required_paging_structures: no page tables are available; allocate more and try again\n"

abbrev pub map_failed : Level → String
map_failed upper_directory =
    "sel4cp_internal_set_up_required_paging_structures: failed to allocate a required page upper directory; error code = "
map_failed directory =
    "sel4cp_internal_set_up_required_paging_structures: failed to allocate a required page directory; error code = "
map_failed table =
    "sel4cp_internal_set_up_required_paging_structures: failed to allocate a required page table; error code = "

-- A message with an error code, and the error value.
abbrev pub refuse : {A : Type 0} → String → ℕ → Prog A
refuse message err = do dbg_puts message; dbg_puthex64 err; dbg_puts "\n"; failure

-- After the call: take the table from the pool, or accept that one is mapped already.
unfoldable pub conclude_level : Level → ℕ → Prog (Unit {0})
conclude_level level err =
    if err == sel4_no_error
    then increment (level_pool level)
    else if err == sel4_delete_first
    then pure tt
    else refuse (map_failed level) err

unfoldable pub ensure_level : Level → (vaddr pd_vspace_cap : ℕ) → Prog (Unit {0})
ensure_level level vaddr pd_vspace_cap = do
  i ← get_idx (level_pool level)
  if leb (pool_num (level_pool level)) i then (dbg_puts (none_available level) >> failure) else do
    err ← invoke (
        level_map level (u64 (pool_base (level_pool level) + i)) pd_vspace_cap
          (mask_bits vaddr (level_bits level)) sel4_arm_default_vmattributes)
    conclude_level level err

unfoldable pub set_up_required_paging_structures : (vaddr pd_vspace_cap : ℕ) → Prog (Unit {0})
set_up_required_paging_structures vaddr pd_vspace_cap = do
  ensure_level upper_directory vaddr pd_vspace_cap
  ensure_level directory vaddr pd_vspace_cap
  ensure_level table vaddr pd_vspace_cap

-- After the call that maps the page: its capability's index, which is never 0.
unfoldable pub conclude_page : ℕ → Prog ℕ
conclude_page err =
    if err == sel4_no_error
    then (do increment pages; i ← get_idx pages; pure (u64 (base_page_pool + i - 1)))
    else refuse "sel4cp_internal_allocate_page: failed to allocate a required page; error code = "
        err

-- The part of `sel4cp_internal_allocate_page` behind the paging structures.
unfoldable pub map_new_page : (vaddr pd_vspace_cap p_flags : ℕ) → Prog ℕ
map_new_page vaddr pd_vspace_cap p_flags = do
  i ← get_idx pages
  if leb (pool_num pages) i
      then (dbg_puts
            "sel4cp_internal_allocate_page: no pages are available; allocate more and try again\n"
          >> failure)
      else do
        err ← invoke (
            arm_page_map (u64 (base_page_pool + i)) pd_vspace_cap (mask_bits vaddr 12)
              (parse_cap_rights (u8 p_flags)) (parse_vm_attributes (u8 p_flags) true))
        conclude_page err

unfoldable pub allocate_page : (vaddr pd_vspace_cap p_flags : ℕ) → Prog ℕ
allocate_page vaddr pd_vspace_cap p_flags = do
  set_up_required_paging_structures vaddr pd_vspace_cap
  map_new_page vaddr pd_vspace_cap p_flags

-- The paging structures for the temporary page, the first time only.
unfoldable pub ensure_temp_page : Prog (Unit {0})
ensure_temp_page = do
  prepared ← gets (λ w. w.alloc_state.temp_page_prepared)
  temp_page ← ask temp_page_vaddr
  current ← ask (λ e. e.current_pd_id)
  if prepared then pure tt else do
    on_fail (set_up_required_paging_structures temp_page (u32 (base_vspace_cap + current))) (
        dbg_puts
          "sel4cp_internal_allocate_page_with_write_handle: failed to allocate the temp loader page\n")
    prepare_temp_page

-- `err = call; if (err != seL4_NoError) { message with the code; return NULL; }`
unfoldable pub require : Call → String → Prog (Unit {0})
require call message = do
  err ← invoke call
  if err == sel4_no_error then pure tt else refuse message err

-- The page behind `page_cap`, shown at the temporary page of the current PD.
unfoldable pub map_temp_page : ℕ → Prog (Unit {0})
map_temp_page page_cap = do
  delete_temp_cap
  temp_page ← ask temp_page_vaddr
  current ← ask (λ e. e.current_pd_id)
  require
      (cnode_copy (u32 (base_cnode_cap + current)) temp_cap pd_cap_bits
        (u32 (base_cnode_cap + current)) page_cap pd_cap_bits sel4_all_rights)
      "sel4cp_internal_allocate_page: failed to copy page capability required to be able to load ELF file, error code = "
  require
      (arm_page_map temp_cap (u32 (base_vspace_cap + current)) temp_page sel4_read_write
        sel4_arm_default_vmattributes)
      "sel4cp_internal_allocate_page: failed to map the page via the copied page capability into the current PD's VSpace, error code = "

-- The argument `src` of the source is not used there.
unfoldable pub allocate_page_with_write_handle : (vaddr pd_vspace_cap p_flags : ℕ) → Prog ℕ
allocate_page_with_write_handle vaddr pd_vspace_cap p_flags = do
  allocated_page_idx ← allocate_page vaddr pd_vspace_cap p_flags
  ensure_temp_page
  map_temp_page allocated_page_idx
  temp_page ← ask temp_page_vaddr
  pure (temp_page + vaddr % 0x1000)
