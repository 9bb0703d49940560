-- ===== src/Domains/Received.antt =====
-- The character that an interrupt of the UART brings, and what root.c and child.c do with it.
use se_l4cp_poc.Prelude.{
  ℕ, ◌%◌, ◌^◌, ◌≡◌, refl, ap, ◌∙◌, ◌∷◌, ◌==◌, if◌then◌else◌, Bool-cases, inl, inr,
}
use se_l4cp_poc.Prelude.Words.{u8, u32, test_bit}
use se_l4cp_poc.Machine.State.{device_read, device_written, Trace, World, Env}
use se_l4cp_poc.Machine.Run.{ok, and_then, pure, invoke, read_register, ◌>>=◌}
use se_l4cp_poc.Api.{irq_ack}
use se_l4cp_poc.Uart.{
  uartdr, uartfr, uarticr, uartfr_rxfe_bit, reg_ptr, read_reg, write_reg, uart_get_char,
  uart_handle_irq,
}
use se_l4cp_poc.Loader.{handle_input}
use se_l4cp_poc.Loader.Tracks.{with_trace, Tracks-handle_input}
use se_l4cp_poc.Domains.{create_child, handle_uart_irq}

module _ (e : Env) where
  -- The trace behind the read of the flags.
  abbrev flags_read : World → Trace
  flags_read w =
      let cleared = device_written (reg_ptr e uarticr) 0x7f0 ∷ w.trace in
      device_read (reg_ptr e uartfr) (e.device cleared (reg_ptr e uartfr)) ∷ cleared

  abbrev flags : World → ℕ
  flags w = u32 (e.device (device_written (reg_ptr e uarticr) 0x7f0 ∷ w.trace) (reg_ptr e uartfr))

  -- The character that an interrupt brings: 0 if the receive register is empty.
  abbrev pub received : World → ℕ
  received w =
      if test_bit (flags w) uartfr_rxfe_bit
      then 0
      else u8 (u32 (e.device (flags_read w) (reg_ptr e uartdr)) % 2 ^ 9)

  -- An interrupt hands the character that it brings to the loader, and creates a PD if that answers
  -- with a buffer.
  pub handle_uart_irq-received :
      (channel pd : ℕ) (failed done : _) (w : World)
      → (t : Trace) × (handle_uart_irq channel pd failed done e w
          ≡ and_then (handle_input (received w) e (record w { trace = t })) λ elf_vaddr v.
            (if elf_vaddr == 0 then pure tt else create_child pd elf_vaddr failed done) e v)
  unfolding handle_uart_irq uart_handle_irq uart_get_char read_reg write_reg irq_ack invoke
      read_register ◌>>=◌
  handle_uart_irq-received channel pd failed done w =
      elim (Bool-cases (test_bit (flags w) uartfr_rxfe_bit)) [
        | inl empty ↦ rw empty (_, refl)
        | inr full ↦ rw full (_, refl)
      ]

  -- The worlds are the same but for their traces.
  abbrev pub Same : World → World → Type 0
  Same x w = w ≡ record x { trace = w.trace }

  pub handled :
      (c a : ℕ) (x x1 w : World)
      → Same x w
      → handle_input c e x ≡ ok a x1
      → (t : Trace)
      → (t' : Trace) × (handle_input c e (record w { trace = t }) ≡ ok a (record x1 { trace = t' }))
  handled c a x x1 w same done t =
      let (t', is) = (Tracks-handle_input {e = e} c).from x t in
      (t', ap (λ z. handle_input c e (record z { trace = t })) same ∙ is ∙ ap (with_trace t') done)
