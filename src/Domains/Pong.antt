-- ===== src/Domains/Pong.antt =====
-- pong.c: the entry points that the core platform calls.
use se_l4cp_poc.Prelude.{ℕ}
use se_l4cp_poc.Machine.Run.{Prog, ◌>>◌, pure, dbg_puts, dbg_puthex64}
use se_l4cp_poc.Api.{notify, msginfo_new}

unfoldable pub init : Prog (Unit {0})
init = dbg_puts "pong: initialized!\n"

unfoldable pub notified : ℕ → Prog (Unit {0})
notified channel = do
  dbg_puts "pong: received message on channel "
  dbg_puthex64 channel
  dbg_puts "\n"
  dbg_puts "pong: ponging the same channel\n"
  notify channel

unfoldable pub protected : (ch msginfo : ℕ) → Prog ℕ
protected ch msginfo = do dbg_puts "pong: received protected message\n"; pure (msginfo_new 0 0)

unfoldable pub fault : (pd msginfo : ℕ) → Prog (Unit {0})
fault pd msginfo = dbg_puts "pong: received fault message!\n"
