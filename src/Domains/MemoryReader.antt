-- ===== src/Domains/MemoryReader.antt =====
-- memory_reader.c: the entry points that the core platform calls.
use se_l4cp_poc.Prelude.{ℕ}
use se_l4cp_poc.Machine.Run.{Prog, ◌>>=◌, ◌>>◌, pure, ask, dbg_puts, dbg_puthex64}
use se_l4cp_poc.Elf.{load8}

abbrev pub vaddr : ℕ
vaddr = 0x5000000

unfoldable pub init : Prog (Unit {0})
init = do
  dbg_puts "memory_reader: initialized!\n"
  dbg_puts "memory_reader: reading value (expecting 0x2a): "
  m ← ask (λ e. e.memory)
  dbg_puthex64 (load8 m vaddr)
  dbg_puts "\n"

unfoldable pub notified : ℕ → Prog (Unit {0})
notified channel = pure tt
