-- ===== src/Api.antt =====
-- The small functions of the public interface in sel4cp.h.
pub mod MessageInfo
use se_l4cp_poc.Prelude.{ℕ, ◌+◌}
use se_l4cp_poc.Prelude.Words.{u32}
use se_l4cp_poc.Kernel.{message_info_new, message_info_get_label}
use se_l4cp_poc.Layout.{base_output_notification_cap, base_output_endpoint_cap, base_irq_cap}
use se_l4cp_poc.Machine.State.{signal, ppcall as ppcall_call, irq_handler_ack, register_set}
use se_l4cp_poc.Machine.Run.{Prog, ◌>>=◌, pure, ask, gets, emit, invoke}

unfoldable pub notify : ℕ → Prog (Unit {0})
notify ch = do _ ← invoke (signal (u32 (base_output_notification_cap + ch))); pure tt

unfoldable pub irq_ack : ℕ → Prog (Unit {0})
irq_ack ch = do _ ← invoke (irq_handler_ack (u32 (base_irq_cap + ch))); pure tt

unfoldable pub ppcall : (ch msginfo : ℕ) → Prog ℕ
ppcall ch msginfo = invoke (ppcall_call (u32 (base_output_endpoint_cap + ch)) msginfo)

unfoldable pub msginfo_new : (label count : ℕ) → ℕ
msginfo_new label count = message_info_new label 0 0 count

unfoldable pub msginfo_get_label : ℕ → ℕ
msginfo_get_label msginfo = message_info_get_label msginfo

-- `seL4_SetMR` and `seL4_GetMR` on the IPC buffer's message registers.
unfoldable pub mr_set : (mr value : ℕ) → Prog (Unit {0})
mr_set mr value = emit (register_set mr value)

unfoldable pub mr_get : ℕ → Prog ℕ
mr_get mr = do
  registers ← ask (λ e. e.message_registers)
  t ← gets (λ w. w.trace)
  pure (registers t mr)
