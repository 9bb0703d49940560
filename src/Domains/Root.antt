-- ===== src/Domains/Root.antt =====
-- root.c: the entry points that the core platform calls.
use se_l4cp_poc.Prelude.{ℕ, ◌==◌, if◌then◌else◌}
use se_l4cp_poc.Machine.Run.{Prog, ◌>>=◌, ◌>>◌, ask, dbg_puts, dbg_puthex64, store8}
use se_l4cp_poc.Api.{msginfo_get_label, mr_get}
use se_l4cp_poc.Uart.{uart_init}
use se_l4cp_poc.Domains.{handle_uart_irq}

abbrev pub uart_irq_channel_id : ℕ
uart_irq_channel_id = 0

abbrev pub child_pd_id : ℕ
child_pd_id = 1

unfoldable pub init : Prog (Unit {0})
init = do
  uart_init
  dbg_puts "root: initialized!\n"
  dbg_puts "root: writing 42 (0x2a) to shared memory region!\n"
  test_region_vaddr ← ask (λ e. e.test_region_vaddr)
  store8 test_region_vaddr 42
  dbg_puts "root: ready to receive ELF file to load dynamically!\n"

unfoldable pub notified : ℕ → Prog (Unit {0})
notified channel =
    if channel == uart_irq_channel_id
    then handle_uart_irq channel child_pd_id "root: failed to create a new PD with id "
        "root: successfully started the program in a new child PD\n"
    else dbg_puts "root: got notified by unknown channel!\n"

-- `seL4_CapFault_Addr` is message register 1.
unfoldable pub fault : (pd msginfo : ℕ) → Prog (Unit {0})
fault pd msginfo = do
  dbg_puts "root: received fault message for pd: "
  dbg_puthex64 pd
  dbg_puts "\n"
  dbg_puts "root: label = "
  dbg_puthex64 (msginfo_get_label msginfo)
  dbg_puts "\n"
  dbg_puts "root: fault_addr = "
  addr ← mr_get 1
  dbg_puthex64 addr
  dbg_puts "\n"
