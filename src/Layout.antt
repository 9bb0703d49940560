-- ===== src/Layout.antt =====
-- The constants of sel4cp.h: ELF identifiers, access right identifiers and the organisation of a
-- protection domain's CSpace, with the pools of unused kernel objects.
pub mod Slots
use se_l4cp_poc.Prelude.{ℕ, ◌+◌, ◌*◌}

abbrev pub ei_access_right_table_offset_idx : ℕ
ei_access_right_table_offset_idx = 9

abbrev pub pt_load : ℕ
pt_load = 1

-- The bits of P_FLAGS_EXECUTABLE (1), P_FLAGS_WRITABLE (2) and P_FLAGS_READABLE (4).
abbrev pub p_flags_executable_bit : ℕ
p_flags_executable_bit = 0

abbrev pub p_flags_writable_bit : ℕ
p_flags_writable_bit = 1

abbrev pub p_flags_writable_readable : ℕ
p_flags_writable_readable = 6

abbrev pub sht_symtab : ℕ
sht_symtab = 2

abbrev pub scheduling_id : ℕ
scheduling_id = 0

abbrev pub channel_id : ℕ
channel_id = 1

abbrev pub memory_region_id : ℕ
memory_region_id = 2

abbrev pub irq_id : ℕ
irq_id = 3

abbrev pub protection_domain_control_id : ℕ
protection_domain_control_id = 4

abbrev pub pd_cap_bits : ℕ
pd_cap_bits = 11

abbrev pub pool_num_pd_targets_child : ℕ
pool_num_pd_targets_child = 2

abbrev pub pool_num_pd_targets : ℕ
pool_num_pd_targets = 5

-- The pools, in the order of their slots.
pub data Pool : Type 0 where
  tcbs notifications cnodes schedcontexts vspaces : Pool
  page_upper_directories page_directories page_tables pages : Pool

-- POOL_NUM_*
abbrev pub pool_num : Pool → ℕ
pool_num tcbs = pool_num_pd_targets
pool_num notifications = pool_num_pd_targets
pool_num cnodes = pool_num_pd_targets
pool_num schedcontexts = pool_num_pd_targets
pool_num vspaces = pool_num_pd_targets
pool_num page_upper_directories = pool_num_pd_targets * 2
pool_num page_directories = pool_num_pd_targets * 4
pool_num page_tables = pool_num_pd_targets * 6
pool_num pages = pool_num_pd_targets * 30

abbrev pub input_cap_idx : ℕ
input_cap_idx = 1

abbrev pub fault_ep_cap_idx : ℕ
fault_ep_cap_idx = 2

abbrev pub reply_cap_idx : ℕ
reply_cap_idx = 4

abbrev pub asid_pool_cap_idx : ℕ
asid_pool_cap_idx = 5

abbrev pub sched_control_cap_idx : ℕ
sched_control_cap_idx = 6

abbrev pub temp_cap : ℕ
temp_cap = 8

abbrev pub base_output_notification_cap : ℕ
base_output_notification_cap = 10

abbrev pub base_output_endpoint_cap : ℕ
base_output_endpoint_cap = base_output_notification_cap + 64

abbrev pub base_irq_cap : ℕ
base_irq_cap = base_output_endpoint_cap + 64

abbrev pub base_tcb_cap : ℕ
base_tcb_cap = base_irq_cap + 64

abbrev pub base_sched_context_cap : ℕ
base_sched_context_cap = base_tcb_cap + 64

abbrev pub base_unbadged_channel_cap : ℕ
base_unbadged_channel_cap = base_sched_context_cap + 64

abbrev pub base_cnode_cap : ℕ
base_cnode_cap = base_unbadged_channel_cap + 64

abbrev pub base_vspace_cap : ℕ
base_vspace_cap = base_cnode_cap + 64

abbrev pub base_tcb_pool : ℕ
base_tcb_pool = base_vspace_cap + 64

abbrev pub base_notification_pool : ℕ
base_notification_pool = base_tcb_pool + pool_num tcbs

abbrev pub base_cnode_pool : ℕ
base_cnode_pool = base_notification_pool + pool_num notifications

abbrev pub base_schedcontext_pool : ℕ
base_schedcontext_pool = base_cnode_pool + pool_num cnodes

abbrev pub base_vspace_pool : ℕ
base_vspace_pool = base_schedcontext_pool + pool_num schedcontexts

abbrev pub base_page_upper_directory_pool : ℕ
base_page_upper_directory_pool = base_vspace_pool + pool_num vspaces

abbrev pub base_page_directory_pool : ℕ
base_page_directory_pool = base_page_upper_directory_pool + pool_num page_upper_directories

abbrev pub base_page_table_pool : ℕ
base_page_table_pool = base_page_directory_pool + pool_num page_directories

abbrev pub base_page_pool : ℕ
base_page_pool = base_page_table_pool + pool_num page_tables

-- BASE_*_POOL, by the pool
abbrev pub pool_base : Pool → ℕ
pool_base tcbs = base_tcb_pool
pool_base notifications = base_notification_pool
pool_base cnodes = base_cnode_pool
pool_base schedcontexts = base_schedcontext_pool
pool_base vspaces = base_vspace_pool
pool_base page_upper_directories = base_page_upper_directory_pool
pool_base page_directories = base_page_directory_pool
pool_base page_tables = base_page_table_pool
pool_base pages = base_page_pool

abbrev pub base_shared_memory_region_pages : ℕ
base_shared_memory_region_pages = base_page_pool + pool_num pages

-- SEL4_ARM_PAGE_CACHEABLE, SEL4_ARM_PARITY_ENABLED and SEL4_ARM_EXECUTE_NEVER
abbrev pub sel4_arm_page_cacheable : ℕ
sel4_arm_page_cacheable = 1

abbrev pub sel4_arm_parity_enabled : ℕ
sel4_arm_parity_enabled = 2

abbrev pub sel4_arm_execute_never : ℕ
sel4_arm_execute_never = 4

abbrev pub sel4_arm_default_vmattributes : ℕ
sel4_arm_default_vmattributes = 3
