-- ===== src/Uart.antt =====
-- uart.h: the driver of the PL011 UART, over device registers that answer from the history.
pub mod Output
use se_l4cp_poc.Prelude.{
  ℕ, zero, suc, ◌+◌, ◌%◌, ◌^◌, true, false, List, [], ◌∷◌, ◌==◌, if◌then◌else◌,
}
use se_l4cp_poc.Prelude.Words.{u32, test_bit}
use se_l4cp_poc.Machine.State.{Env}
use se_l4cp_poc.Machine.Run.{Prog, ◌>>=◌, ◌>>◌, pure, exhausted, ask, read_register, write_register}

abbrev pub uartdr : ℕ
uartdr = 0x000

abbrev pub uartfr : ℕ
uartfr = 0x018

abbrev pub uartimsc : ℕ
uartimsc = 0x038

abbrev pub uarticr : ℕ
uarticr = 0x044

-- The bits of PL011_UARTFR_TXFF and PL011_UARTFR_RXFE.
abbrev pub uartfr_txff_bit : ℕ
uartfr_txff_bit = 5

abbrev pub uartfr_rxfe_bit : ℕ
uartfr_rxfe_bit = 4

-- `REG_PTR(uart_base_vaddr, offset)`
abbrev pub reg_ptr : Env → ℕ → ℕ
reg_ptr e offset = e.uart_base_vaddr + offset

unfoldable pub read_reg : ℕ → Prog ℕ
read_reg offset = do a ← ask (λ e. reg_ptr e offset); v ← read_register a; pure (u32 v)

unfoldable pub write_reg : (offset value : ℕ) → Prog (Unit {0})
write_reg offset value = do a ← ask (λ e. reg_ptr e offset); write_register a value

unfoldable pub uart_init : Prog (Unit {0})
uart_init = write_reg uartimsc 0x50

-- RHR_MASK keeps the low nine bits.
unfoldable pub uart_get_char : Prog ℕ
uart_get_char = do
  flags ← read_reg uartfr
  if test_bit flags uartfr_rxfe_bit
      then pure 0
      else (do value ← read_reg uartdr; pure (value % 2 ^ 9))

-- `while ((*REG_PTR(uart_base_vaddr, UARTFR) & PL011_UARTFR_TXFF) != 0);`
unfoldable pub wait_for_room : ℕ → Prog (Unit {0})
wait_for_room zero = exhausted
wait_for_room (suc fuel) = do
  flags ← read_reg uartfr
  elim (test_bit flags uartfr_txff_bit) [ true ↦ wait_for_room fuel | false ↦ pure tt ]

unfoldable pub send_char : (fuel ch : ℕ) → Prog (Unit {0})
send_char fuel ch = do wait_for_room fuel; write_reg uartdr (u32 ch)

-- A carriage return is followed by a line feed; the call for it makes no other.
unfoldable pub uart_put_char : (fuel ch : ℕ) → Prog (Unit {0})
uart_put_char fuel ch = do send_char fuel ch; if ch == b'\r' then send_char fuel b'\n' else pure tt

-- The string up to its terminator.
unfoldable pub uart_put_str : ℕ → List ℕ → Prog (Unit {0})
uart_put_str fuel [] = pure tt
uart_put_str fuel (c ∷ cs) = do uart_put_char fuel c; uart_put_str fuel cs

unfoldable pub uart_handle_irq : Prog (Unit {0})
uart_handle_irq = write_reg uarticr 0x7f0
