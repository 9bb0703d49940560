-- ===== src/Tests/Uart.antt =====
-- A transfer of one byte over a UART that has the next character whenever its data register is read.
use se_l4cp_poc.Prelude.{
  ℕ, ◌+◌, ◌≤◌, ◌<◌, ◌≡◌, ◌⊎◌, refl, List, [], ◌∷◌, arith, get_or, ◌==◌, if◌then◌else◌,
}
use se_l4cp_poc.Machine.State.{device_read, Trace, World, Env, initial_alloc_state}
use se_l4cp_poc.Machine.Run.{read_register, invoke, pure, ◌>>=◌}
use se_l4cp_poc.Uart.{read_reg, write_reg, uart_get_char, uart_handle_irq}
use se_l4cp_poc.Api.{irq_ack}
use se_l4cp_poc.Loader.{
  digit_value, parse_hex64_from, parse_hex64, finish_size, handle_size_input, handle_file_input,
  handle_input,
}
use se_l4cp_poc.Loader.Hex.{value}
use se_l4cp_poc.Loader.Size.{AreDigits, horner}
use se_l4cp_poc.Loader.Transfer.{IsIdle}
use se_l4cp_poc.Domains.{handle_uart_irq}
use se_l4cp_poc.Domains.Root.{notified}
use se_l4cp_poc.Domains.Interrupts.{Brings, interrupts, created, root, interrupts-create}
use se_l4cp_poc.Tests.Elves.{demo_env, demo_world}

-- "1", a line feed and a file of one byte.
abbrev sent : List ℕ
sent = b'1' ∷ b'\n' ∷ 7 ∷ []

abbrev taken : Trace → ℕ
taken [] = 0
taken (device_read a v ∷ t) = let rest = taken t in if a == 0x2000000 then rest + 1 else rest
taken (_ ∷ t) = taken t

abbrev uart_env : Env
uart_env = record demo_env { device = λ t a. if a == 0x2000000 then get_or sent (taken t) 0 else 0 }

sent-Brings : Brings uart_env root sent demo_world
unfolding Brings notified handle_uart_irq uart_handle_irq uart_get_char read_reg write_reg
    read_register irq_ack invoke handle_input handle_size_input handle_file_input finish_size
    parse_hex64 parse_hex64_from digit_value pure ◌>>=◌
sent-Brings = (refl, (refl, (refl, tt)))

one_digit-AreDigits : AreDigits (b'1' ∷ [])
unfolding AreDigits digit_value value
one_digit-AreDigits = (refl, tt)

horner-one_digit : horner 0 (b'1' ∷ []) ≡ 1
unfolding horner value digit_value
horner-one_digit = refl

demo_world-IsIdle : IsIdle uart_env demo_world
demo_world-IsIdle = record { no_size = refl; no_digit = refl; at_start = refl }

interrupts-create_example :
    (v : World) × (interrupts root 3 uart_env demo_world ≡ created root 0x300000 uart_env v)
    × IsIdle uart_env v
    × ((i : ℕ) → i < 1 → v.memory (0x300000 + i) ≡ get_or (7 ∷ []) i 0)
    × ((a : ℕ) → (a < 0x300000) ⊎ (0x300001 ≤ a) → v.memory a ≡ demo_world.memory a)
    × (v.alloc_state ≡ initial_alloc_state)
interrupts-create_example =
    interrupts-create uart_env root (b'1' ∷ []) 7 [] demo_world demo_world-IsIdle
      one_digit-AreDigits (omega arith) horner-one_digit (omega arith) (λ p. omega (arith, p))
      sent-Brings
