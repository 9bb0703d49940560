-- ===== src/Domains/Child.antt =====
-- child.c: the entry points that the core platform calls.
use se_l4cp_poc.Prelude.{ℕ, ◌==◌, if◌then◌else◌}
use se_l4cp_poc.Machine.Run.{Prog, ◌>>◌, dbg_puts, dbg_puthex64}
use se_l4cp_poc.Api.{notify}
use se_l4cp_poc.Domains.{handle_uart_irq}

abbrev pub ping_channel_id : ℕ
ping_channel_id = 1

abbrev pub irq_channel_id : ℕ
irq_channel_id = 4

abbrev pub child_pd_id : ℕ
child_pd_id = 5

unfoldable pub init : Prog (Unit {0})
init = do
  dbg_puts "child: initialized!\n"
  dbg_puts "child: sending ping!\n"
  notify ping_channel_id

unfoldable pub notified : ℕ → Prog (Unit {0})
notified channel =
    if channel == ping_channel_id
    then (do
      dbg_puts "child: received pong!\n"
      dbg_puts "child: ready to receive ELF file to load dynamically!\n")
    else if channel == irq_channel_id
    then handle_uart_irq channel child_pd_id "child: failed to create a new PD with id "
        "child: successfully started the program in a new child PD\n"
    else do dbg_puts "child: got notified on unknown channel "; dbg_puthex64 channel; dbg_puts "\n"
