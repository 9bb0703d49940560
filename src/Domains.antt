-- ===== src/Domains.antt =====
-- The protection domains of the system, root.c, child.c, pong.c and memory_reader.c, and what
-- root.c and child.c have in common.
pub mod Root
pub mod Child
pub mod Pong
pub mod MemoryReader
pub mod Keeps
pub mod Safety
pub mod Channels
pub mod Wiring
pub mod Delivery
pub mod Received
pub mod Interrupts
pub mod PingPong
use se_l4cp_poc.Prelude.{ℕ, Bool, true, false, not, String, ◌==◌, if◌then◌else◌}
use se_l4cp_poc.Prelude.Words.{u8}
use se_l4cp_poc.Machine.State.{World, Env}
use se_l4cp_poc.Machine.Run.{
  Run, fail, crash, out_of_fuel, Prog, ok, ◌>>=◌, ◌>>◌, pure, ask, gets, dbg_puts, dbg_puthex64,
  store8, with_memory, and_then,
}
use se_l4cp_poc.Elf.{load8}
use se_l4cp_poc.Create.{pd_create}
use se_l4cp_poc.Api.{notify, irq_ack, msginfo_new, msginfo_get_label, mr_get}
use se_l4cp_poc.Loader.{handle_input}
use se_l4cp_poc.Uart.{uart_init, uart_get_char, uart_handle_irq}

-- Whether a C function returned its error value, or 0.
unfoldable pub succeeded : Run (Unit {0}) → Run Bool
succeeded (ok a w) = ok true w
succeeded (fail w) = ok false w
succeeded (crash n w) = crash n w
succeeded (out_of_fuel w) = out_of_fuel w

-- `if (sel4cp_pd_create(pd, elf_vaddr)) { three messages } else the last one`
unfoldable pub create_child : (pd elf_vaddr : ℕ) → (failed done : String) → Prog (Unit {0})
create_child pd elf_vaddr failed done = do
  memory ← gets (λ w. w.memory)
  created ← (λ e w. succeeded (with_memory memory (pd_create pd elf_vaddr) e w))
  if created
      then dbg_puts done
      else do dbg_puts failed; dbg_puthex64 pd; dbg_puts " and load the provided ELF file\n"

-- The interrupt of the UART, as root and child handle it.
unfoldable pub handle_uart_irq : (channel pd : ℕ) → (failed done : String) → Prog (Unit {0})
handle_uart_irq channel pd failed done = do
  uart_handle_irq
  c ← uart_get_char
  irq_ack channel
  elf_vaddr ← handle_input (u8 c)
  if elf_vaddr == 0 then pure tt else create_child pd elf_vaddr failed done
