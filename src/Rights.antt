-- ===== src/Rights.antt =====
-- The access right table that a patched ELF file carries: `sel4cp_internal_set_up_access_rights`
-- and `sel4cp_internal_has_protection_domain_control_access_right`.
pub mod Steps
pub mod Halts
pub mod Table
pub mod Parse
pub mod Control
pub mod Invalid
pub mod Reasons
pub mod Regions
pub mod Unshared
pub mod Shares
pub mod Granted
pub mod Lacking
use se_l4cp_poc.Prelude.{
  ℕ, zero, suc, ◌+◌, ◌-◌, ◌*◌, ◌/◌, ◌^◌, Bool, true, false, not, Option, none, some, ◌==◌,
  if◌then◌else◌,
}
use se_l4cp_poc.Prelude.Words.{u32, u64}
use se_l4cp_poc.Kernel.{sel4_no_error, sel4_all_rights}
use se_l4cp_poc.Layout.{
  ei_access_right_table_offset_idx, scheduling_id, channel_id, memory_region_id, irq_id,
  protection_domain_control_id, base_cnode_cap, base_vspace_cap, base_shared_memory_region_pages,
  pd_cap_bits,
}
use se_l4cp_poc.Machine.State.{Memory, arm_page_map, cnode_copy}
use se_l4cp_poc.Machine.Run.{
  Prog, ◌>>=◌, ◌>>◌, pure, failure, ask, dbg_puts, dbg_puthex64, invoke, try,
}
use se_l4cp_poc.Elf.{load8, load64}
use se_l4cp_poc.Caps.{set_priority, set_sched_flags, set_up_channel, set_up_irq}
use se_l4cp_poc.Paging.{parse_cap_rights, parse_vm_attributes, set_up_required_paging_structures}

-- The start of the table: the seven bytes behind the first nine of `e_ident` are its offset.
unfoldable pub access_right_table : Memory → ℕ → ℕ
access_right_table m elf_file =
    elf_file + load64 m (elf_file + ei_access_right_table_offset_idx - 1) / 2 ^ 8

-- `seL4_ARM_Page_Map` in the loop over the pages of a memory region, with its message.
unfoldable pub map_shared_page :
    (page_cap pd_vspace_cap page_vaddr rights attr : ℕ) → Prog (Unit {0})
map_shared_page page_cap pd_vspace_cap page_vaddr rights attr = do
  err ← invoke (arm_page_map page_cap pd_vspace_cap page_vaddr rights attr)
  if err == sel4_no_error then pure tt else do
    dbg_puts "sel4cp_internal_set_up_access_rights: failed to map page for child\n"
    dbg_puthex64 err
    dbg_puts "\n"
    failure

-- One round of that loop: page `j` of the region `id`, whose capability goes to the child's slot
-- `shared_page_idx`.
unfoldable pub share_page : (pd id vaddr rights attr shared_page_idx j : ℕ) → Prog (Unit {0})
share_page pd id vaddr rights attr shared_page_idx j = do
  current ← ask (λ e. e.current_pd_id)
  let page_cap = u64 (base_shared_memory_region_pages + id + j)
  let page_vaddr = u64 (vaddr + j * 0x1000)
  set_up_required_paging_structures page_vaddr (u32 (base_vspace_cap + pd))
  map_shared_page page_cap (u32 (base_vspace_cap + pd)) page_vaddr rights attr
  try (
      cnode_copy (u32 (base_cnode_cap + pd)) shared_page_idx pd_cap_bits
        (u32 (base_cnode_cap + current)) page_cap pd_cap_bits sel4_all_rights)

-- The loop, with `n` rounds left from page `j`; returns the next `shared_page_idx`.
unfoldable pub share_pages : ℕ → (pd id vaddr rights attr shared_page_idx j : ℕ) → Prog ℕ
share_pages zero pd id vaddr rights attr shared_page_idx j = pure shared_page_idx
share_pages (suc n) pd id vaddr rights attr shared_page_idx j = do
  share_page pd id vaddr rights attr shared_page_idx j
  share_pages n pd id vaddr rights attr (u64 (shared_page_idx + 1)) (j + 1)

-- One case of the `switch` each. The reader stands behind the type identifier, and the case
-- returns where it leaves the reader, with the next `shared_page_idx`.
unfoldable pub set_up_scheduling : Memory → (pd reader shared_page_idx : ℕ) → Prog (ℕ × ℕ)
set_up_scheduling m pd reader shared_page_idx = do
  let priority = load8 m reader
  let mcp = load8 m (reader + 1)
  let budget = load64 m (reader + 2)
  let period = load64 m (reader + 10)
  set_priority pd priority mcp
  set_sched_flags pd budget period
  pure (reader + 18, shared_page_idx)

unfoldable pub set_up_channel_right : Memory → (pd reader shared_page_idx : ℕ) → Prog (ℕ × ℕ)
set_up_channel_right m pd reader shared_page_idx = do
  let target_pd = load8 m reader
  let target_id = load8 m (reader + 1)
  let own_id = load8 m (reader + 2)
  set_up_channel pd target_pd own_id target_id
  pure (reader + 3, shared_page_idx)

unfoldable pub set_up_memory_region : Memory → (pd reader shared_page_idx : ℕ) → Prog (ℕ × ℕ)
set_up_memory_region m pd reader shared_page_idx = do
  let id = load64 m reader
  let vaddr = load64 m (reader + 8)
  let size = load64 m (reader + 16)
  let perms = load8 m (reader + 24)
  let cached = load8 m (reader + 25)
  next ←
      share_pages (size / 0x1000) pd id vaddr (parse_cap_rights perms)
        (parse_vm_attributes perms (not (cached == 0))) shared_page_idx 0
  pure (reader + 26, next)

unfoldable pub set_up_irq_right : Memory → (pd reader shared_page_idx : ℕ) → Prog (ℕ × ℕ)
set_up_irq_right m pd reader shared_page_idx = do
  let parent_irq_channel_id = load8 m reader
  let child_irq_channel_id = load8 m (reader + 1)
  set_up_irq pd parent_irq_channel_id child_irq_channel_id
  pure (reader + 2, shared_page_idx)

-- The body of the `for` loop over the table.
unfoldable pub set_up_access_right : Memory → (pd reader shared_page_idx : ℕ) → Prog (ℕ × ℕ)
set_up_access_right m pd reader shared_page_idx =
    let type_id = load8 m reader in
    if type_id == scheduling_id
    then set_up_scheduling m pd (reader + 1) shared_page_idx
    else if type_id == channel_id
    then set_up_channel_right m pd (reader + 1) shared_page_idx
    else if type_id == memory_region_id
    then set_up_memory_region m pd (reader + 1) shared_page_idx
    else if type_id == irq_id
    then set_up_irq_right m pd (reader + 1) shared_page_idx
    else if type_id == protection_domain_control_id
    then pure (reader + 1, shared_page_idx)
    else do
      dbg_puts "sel4cp_internal_set_up_access_rights: invalid access right type id: "
      dbg_puthex64 type_id
      dbg_puts "\n"
      failure

unfoldable pub set_up_access_rights_from :
    ℕ → Memory → (pd reader shared_page_idx : ℕ) → Prog (Unit {0})
set_up_access_rights_from zero m pd reader shared_page_idx = pure tt
set_up_access_rights_from (suc n) m pd reader shared_page_idx = do
  (reader', shared_page_idx') ← set_up_access_right m pd reader shared_page_idx
  set_up_access_rights_from n m pd reader' shared_page_idx'

unfoldable pub set_up_access_rights : (elf_file pd : ℕ) → Prog (Unit {0})
set_up_access_rights elf_file pd = do
  m ← ask (λ e. e.memory)
  let table = access_right_table m elf_file
  set_up_access_rights_from (load64 m table) m pd (table + 8) base_shared_memory_region_pages

-- How far `sel4cp_internal_has_protection_domain_control_access_right` moves its reader for a type
-- that it skips; `none` for an identifier that is no type.
abbrev pub skipped_bytes : ℕ → Option ℕ
skipped_bytes type_id =
    if type_id == scheduling_id
    then some 18
    else if type_id == channel_id
    then some 3
    else if type_id == memory_region_id
    then some 26
    else if type_id == irq_id
    then some 2
    else none

-- The cases of its `switch`; `continue` is the rest of the loop, from a reader moved so far.
unfoldable pub has_control_case :
    (is_control : Bool)
    → (skipped : Option ℕ) → (type_id : ℕ) → (continue : ℕ → Prog Bool) → Prog Bool
has_control_case true skipped type_id continue = pure true
has_control_case false (some k) type_id continue = continue k
has_control_case false none type_id continue = do
  dbg_puts
      "sel4cp_internal_has_protection_domain_control_access_right: invalid access right type id: "
  dbg_puthex64 type_id
  dbg_puts "\n"
  pure false

unfoldable pub has_control_from : ℕ → Memory → ℕ → Prog Bool
has_control_from zero m reader = pure false
has_control_from (suc n) m reader =
    let type_id = load8 m reader in
    has_control_case (type_id == protection_domain_control_id) (skipped_bytes type_id) type_id
      (λ k. has_control_from n m (reader + 1 + k))

unfoldable pub has_protection_domain_control_access_right : ℕ → Prog Bool
has_protection_domain_control_access_right elf_file = do
  m ← ask (λ e. e.memory)
  let table = access_right_table m elf_file
  has_control_from (load64 m table) m (table + 8)
