-- ===== src/Caps.antt =====
-- The functions of sel4cp.h that configure another protection domain's capabilities and end in
-- `sel4cp_internal_crash` if the kernel refuses.
pub mod Steps
pub mod Halts
pub mod Reasons
use se_l4cp_poc.Prelude.{ℕ, ◌+◌, ◌-◌, String, ◌==◌, if◌then◌else◌}
use se_l4cp_poc.Prelude.Words.{u32, u64}
use se_l4cp_poc.Kernel.{sel4_no_error, sel4_all_rights}
use se_l4cp_poc.Layout.{
  schedcontexts, pd_cap_bits, fault_ep_cap_idx, sched_control_cap_idx, temp_cap,
  base_output_notification_cap, base_irq_cap, base_tcb_cap, base_sched_context_cap,
  base_unbadged_channel_cap, base_cnode_cap, base_schedcontext_pool,
}
use se_l4cp_poc.Machine.State.{
  Call, cnode_delete, cnode_mint, cnode_move, tcb_set_sched_params, sched_control_configure_flags,
  irq_handler_set_notification, tcb_write_registers, tcb_suspend,
}
use se_l4cp_poc.Machine.Run.{
  Prog, ok, ◌>>=◌, ◌>>◌, pure, crashed, ask, dbg_puts, dbg_puthex64, invoke, get_idx, shift_one,
}
use se_l4cp_poc.Prelude.{true}

-- `sel4cp_internal_crash`: the store to the address `err` faults.
abbrev pub internal_crash : ℕ → Prog (Unit {0})
internal_crash err = crashed err

-- `err = call; if (err != seL4_NoError) { message; sel4cp_internal_crash(err); }`
unfoldable pub insist : Call → (ℕ → Prog (Unit {0})) → Prog (Unit {0})
insist call message = do
  err ← invoke call
  if err == sel4_no_error then pure tt else (message err >> internal_crash err)

unfoldable pub delete_temp_cap : Prog (Unit {0})
delete_temp_cap = do
  current ← ask (λ e. e.current_pd_id)
  insist (cnode_delete (u32 (base_cnode_cap + current)) temp_cap pd_cap_bits) λ err. do
    dbg_puts
        "sel4cp_internal_delete_temp_cap: failed to clean up the CSlot used for temporary capabilities, error code = "
    dbg_puthex64 err
    dbg_puts "\n"

unfoldable pub set_priority : (pd priority mcp : ℕ) → Prog (Unit {0})
set_priority pd priority mcp = do
  current ← ask (λ e. e.current_pd_id)
  schedcontext_idx ← get_idx schedcontexts
  insist
      (tcb_set_sched_params (u32 (base_tcb_cap + pd)) (u32 (base_tcb_cap + current)) mcp priority
        (u64 (base_schedcontext_pool + schedcontext_idx - 1)) fault_ep_cap_idx)
      λ err. dbg_puts "sel4cp_internal_set_priority: error setting priority\n"

unfoldable pub set_sched_flags : (pd budget period : ℕ) → Prog (Unit {0})
set_sched_flags pd budget period =
    insist
      (sched_control_configure_flags sched_control_cap_idx (u32 (base_sched_context_cap + pd))
        budget period 0 0 0)
      λ err. dbg_puts "sel4cp_internal_set_sched_flags: error setting scheduling flags\n"

-- One direction of `sel4cp_internal_set_up_channel`: PD `from` gets a capability to notify PD `to`.
unfoldable pub mint_channel : (from to channel_from channel_to : ℕ) → Prog (Unit {0})
mint_channel from to channel_from channel_to = do
  badge ← ask (λ e. shift_one e channel_to)
  insist
      (cnode_mint (u32 (base_cnode_cap + from)) (base_output_notification_cap + channel_from)
        pd_cap_bits (u32 (base_cnode_cap + to)) (u32 (base_unbadged_channel_cap + to)) pd_cap_bits
        sel4_all_rights badge)
      λ err. do
        dbg_puts "sel4cp_internal_set_up_channel: failed set up channel for PD "
        dbg_puthex64 from
        dbg_puts "\n"

unfoldable pub set_up_channel : (pd_a pd_b channel_id_a channel_id_b : ℕ) → Prog (Unit {0})
set_up_channel pd_a pd_b channel_id_a channel_id_b = do
  mint_channel pd_a pd_b channel_id_a channel_id_b
  mint_channel pd_b pd_a channel_id_b channel_id_a

unfoldable pub set_up_irq : (pd parent_irq_channel_id child_irq_channel_id : ℕ) → Prog (Unit {0})
set_up_irq pd parent_irq_channel_id child_irq_channel_id = do
  delete_temp_cap
  current ← ask (λ e. e.current_pd_id)
  badge ← ask (λ e. shift_one e child_irq_channel_id)
  insist
      (cnode_mint (u32 (base_cnode_cap + current)) temp_cap pd_cap_bits
        (u32 (base_cnode_cap + current)) (u32 (base_unbadged_channel_cap + pd)) pd_cap_bits
        sel4_all_rights badge)
      λ err.
        dbg_puts
          "sel4cp_internal_set_up_irq: failed to create a badged capability to the child PD to be used for IRQ handling\n"
  insist (irq_handler_set_notification (base_irq_cap + parent_irq_channel_id) temp_cap)
      λ err. dbg_puts "sel4cp_internal_set_up_irq: failed to register child as the handler of irq\n"
  insist
      (cnode_move (u32 (base_cnode_cap + pd)) (base_irq_cap + child_irq_channel_id) pd_cap_bits
        (u32 (base_cnode_cap + current)) (base_irq_cap + parent_irq_channel_id) pd_cap_bits)
      λ err.
        dbg_puts
          "sel4cp_internal_set_up_irq: failed to move the IRQHandler capability to the child PD\n"

unfoldable pub pd_restart : (pd entry_point : ℕ) → Prog (Unit {0})
pd_restart pd entry_point =
    insist (tcb_write_registers (u32 (base_tcb_cap + pd)) true 0 1 entry_point)
      λ err. dbg_puts "sel4cp_internal_pd_restart: error writing registers\n"

unfoldable pub pd_stop : ℕ → Prog (Unit {0})
pd_stop pd =
    insist (tcb_suspend (u32 (base_tcb_cap + pd)))
      λ err. dbg_puts "sel4cp_pd_stop: error writing registers\n"
