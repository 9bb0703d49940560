-- ===== src/Machine/State.antt =====
-- The static variables of sel4cp.h and elf_loader.h, the system calls that they make, and the
-- environment: kernel and device as functions of all that happened before, so of any state.
use se_l4cp_poc.Prelude.{ℕ, ◌+◌, Bool, false, String, List}
use se_l4cp_poc.Layout.{
  Pool, tcbs, notifications, cnodes, schedcontexts, vspaces, page_upper_directories,
  page_directories, page_tables, pages,
}

-- Bytes by address. The value of an address that holds no byte is of no interest.
abbrev pub Memory : Type 0
Memory = ℕ → ℕ

-- `allocation_state`
pub record AllocationState : Type 0 where
  pub tcb_idx : ℕ
  pub notification_idx : ℕ
  pub cnode_idx : ℕ
  pub schedcontext_idx : ℕ
  pub vspace_idx : ℕ
  pub page_upper_directory_idx : ℕ
  pub page_directory_idx : ℕ
  pub page_table_idx : ℕ
  pub page_idx : ℕ
  pub temp_page_prepared : Bool

-- the initial value of `alloc_state`
abbrev pub initial_alloc_state : AllocationState
initial_alloc_state = record {
  tcb_idx = 0;
  notification_idx = 0;
  cnode_idx = 0;
  schedcontext_idx = 0;
  vspace_idx = 0;
  page_upper_directory_idx = 0;
  page_directory_idx = 0;
  page_table_idx = 0;
  page_idx = 0;
  temp_page_prepared = false;
}

-- The field of a pool, and its update; a `uint64_t *` to a field is its pool.
abbrev pub idx : Pool → AllocationState → ℕ
idx tcbs s = s.tcb_idx
idx notifications s = s.notification_idx
idx cnodes s = s.cnode_idx
idx schedcontexts s = s.schedcontext_idx
idx vspaces s = s.vspace_idx
idx page_upper_directories s = s.page_upper_directory_idx
idx page_directories s = s.page_directory_idx
idx page_tables s = s.page_table_idx
idx pages s = s.page_idx

abbrev pub set_idx : Pool → ℕ → AllocationState → AllocationState
set_idx tcbs n s = record s { tcb_idx = n }
set_idx notifications n s = record s { notification_idx = n }
set_idx cnodes n s = record s { cnode_idx = n }
set_idx schedcontexts n s = record s { schedcontext_idx = n }
set_idx vspaces n s = record s { vspace_idx = n }
set_idx page_upper_directories n s = record s { page_upper_directory_idx = n }
set_idx page_directories n s = record s { page_directory_idx = n }
set_idx page_tables n s = record s { page_table_idx = n }
set_idx pages n s = record s { page_idx = n }

-- The calls into libsel4, with their arguments in the order of the source.
pub data Call : Type 0 where
  cnode_delete : (service index depth : ℕ) → Call
  cnode_mint : (service dest_index dest_depth src_root src_index src_depth rights badge : ℕ) → Call
  cnode_copy : (service dest_index dest_depth src_root src_index src_depth rights : ℕ) → Call
  cnode_move : (service dest_index dest_depth src_root src_index src_depth : ℕ) → Call
  tcb_set_sched_params : (service authority mcp priority sched_context fault_ep : ℕ) → Call
  tcb_set_space :
      (service fault_ep cspace_root cspace_root_data vspace_root vspace_root_data : ℕ) → Call
  tcb_bind_notification : (service notification : ℕ) → Call
  tcb_set_ipc_buffer : (service buffer buffer_frame : ℕ) → Call
  tcb_write_registers : (service : ℕ) (resume : Bool) (arch_flags count pc : ℕ) → Call
  tcb_suspend : (service : ℕ) → Call
  sched_control_configure_flags :
      (service schedcontext budget period extra_refills badge flags : ℕ) → Call
  irq_handler_set_notification : (service notification : ℕ) → Call
  irq_handler_ack : (service : ℕ) → Call
  arm_page_upper_directory_map : (service vspace vaddr attr : ℕ) → Call
  arm_page_directory_map : (service vspace vaddr attr : ℕ) → Call
  arm_page_table_map : (service vspace vaddr attr : ℕ) → Call
  arm_page_map : (service vspace vaddr rights attr : ℕ) → Call
  arm_asid_pool_assign : (service vspace : ℕ) → Call
  signal : (dest : ℕ) → Call
  ppcall : (dest info : ℕ) → Call

-- What a program does that the rest of the system can see.
pub data Event : Type 0 where
  invoked : Call → (answer : ℕ) → Event
  stored8 : (addr value : ℕ) → Event
  stored32 : (addr value : ℕ) → Event
  device_read : (addr value : ℕ) → Event
  device_written : (addr value : ℕ) → Event
  printed : String → Event
  printed_hex64 : ℕ → Event
  register_set : (mr value : ℕ) → Event

-- The newest event comes first.
abbrev pub Trace : Type 0
Trace = List Event

-- The static variables of elf_loader.h. `elf_buffer` itself is in the memory.
pub record LoaderState : Type 0 where
  pub elf_current_vaddr : ℕ
  pub elf_size : ℕ
  pub size_buffer : ℕ → ℕ
  pub size_buffer_idx : ℕ

pub record World : Type 0 where
  pub alloc_state : AllocationState
  pub memory : Memory
  pub loader : LoaderState
  pub trace : Trace

-- What a program is given. `kernel` and `device` answer from the trace, so they may keep any state.
-- `undefined_shift n` is what the compiled code has for `1 << n` where C leaves it undefined, and
-- `overrun` what a store behind `elf_buffer`, which C leaves undefined, makes of the static variables.
-- `message_registers` is what the IPC buffer's registers hold after all that has happened: system
-- calls and their stubs write them too.
pub record Env : Type 0 where
  pub memory : Memory
  pub current_pd_id : ℕ
  pub ipc_buffer : ℕ
  pub elf_buffer : ℕ
  pub uart_base_vaddr : ℕ
  pub test_region_vaddr : ℕ
  pub kernel : Trace → Call → ℕ
  pub device : Trace → ℕ → ℕ
  pub undefined_shift : ℕ → ℕ
  pub overrun : (addr value : ℕ) → AllocationState × LoaderState → AllocationState × LoaderState
  pub message_registers : Trace → ℕ → ℕ

-- `__SEL4_TEMP_PAGE_VADDR`
abbrev pub temp_page_vaddr : Env → ℕ
temp_page_vaddr e = e.ipc_buffer + 0x1000
