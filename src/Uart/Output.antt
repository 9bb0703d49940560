-- ===== src/Uart/Output.antt =====
-- The output of the UART: the words written to the data register.
use se_l4cp_poc.Prelude.{
  ℕ, zero, suc, ◌≡◌, refl, ap, subst, inl, inr, Bool, true, false, List, [], ◌∷◌, ◌==◌,
  if◌then◌else◌, Bool-cases,
}
use se_l4cp_poc.Prelude.Words.{u32, test_bit}
use se_l4cp_poc.Machine.State.{Env, World, Trace, device_read, device_written}
use se_l4cp_poc.Machine.Run.{
  Run, ok, fail, crash, out_of_fuel, and_then, pure, ◌>>=◌, read_register,
}
use se_l4cp_poc.Uart.{
  uartfr, uartdr, uartfr_txff_bit, reg_ptr, read_reg, write_reg, wait_for_room, send_char,
  uart_put_char, uart_put_str,
}

-- The writes to device registers, the newest first.
unfoldable pub written : Trace → Trace
written [] = []
written (device_written a v ∷ t) = device_written a v ∷ written t
written (_ ∷ t) = written t

-- A run that returns, and leaves these writes.
abbrev pub Leaves : {A : Type 0} → Trace → Run A → Type 0
Leaves t (ok a v) = written v.trace ≡ t
Leaves t _ = ⊥

module _ (e : Env) where
  -- The transmit register has room after so many polls at most.
  abbrev pub FreesWithin : ℕ → Trace → Type 0
  FreesWithin zero t = test_bit (u32 (e.device t (reg_ptr e uartfr))) uartfr_txff_bit ≡ false
  FreesWithin (suc k) t =
      test_bit (u32 (e.device t (reg_ptr e uartfr))) uartfr_txff_bit ≡ true
      → FreesWithin k (device_read (reg_ptr e uartfr) (e.device t (reg_ptr e uartfr)) ∷ t)

  -- What a character adds to the output, and what a string does.
  abbrev pub char_sent : ℕ → Trace → Trace
  char_sent c t =
      if c == b'\r'
      then device_written (reg_ptr e uartdr) (u32 b'\n')
        ∷ device_written (reg_ptr e uartdr) (u32 c)
        ∷ t
      else device_written (reg_ptr e uartdr) (u32 c) ∷ t

  unfoldable pub string_sent : List ℕ → Trace → Trace
  string_sent [] t = t
  string_sent (c ∷ cs) t = string_sent cs (char_sent c t)

  waited :
      (k : ℕ) (w : World)
      → FreesWithin k w.trace
      → Leaves (written w.trace) (wait_for_room (suc k) e w)
  unfolding wait_for_room read_reg ◌>>=◌ read_register written
  waited zero w free = rw (free, Leaves) refl
  waited (suc k) w free =
      elim (Bool-cases (test_bit (u32 (e.device w.trace (reg_ptr e uartfr))) uartfr_txff_bit)) [
        | inl full ↦ rw (full, Leaves) (waited k _ (free full))
        | inr room ↦ rw (room, Leaves) refl
      ]

  module _ (k : ℕ) (frees : (t : Trace) → FreesWithin k t) where
    char_written :
        (c : ℕ) (w : World)
        → Leaves
            (device_written (reg_ptr e uartdr) (u32 c) ∷ written w.trace)
            (send_char (suc k) c e w)
    unfolding send_char write_reg ◌>>=◌
    char_written c w = behind (wait_for_room (suc k) e w) (waited k w (frees w.trace))
      where
        behind :
            (r : Run (Unit {0}))
            → Leaves (written w.trace) r
            → Leaves
                (device_written (reg_ptr e uartdr) (u32 c) ∷ written w.trace)
                (and_then r (λ _. write_reg uartdr (u32 c) e))
        behind (ok a v) h =
            unfold written in ap (λ t. device_written (reg_ptr e uartdr) (u32 c) ∷ t) h
        behind (fail v) h = h
        behind (crash n v) h = h
        behind (out_of_fuel v) h = h

    char_put :
        (c : ℕ) (w : World) → Leaves (char_sent c (written w.trace)) (uart_put_char (suc k) c e w)
    unfolding uart_put_char ◌>>=◌
    char_put c w = behind (send_char (suc k) c e w) (char_written c w)
      where
        ends :
            (v : World) (t : Trace) (b : Bool)
            → written v.trace ≡ device_written (reg_ptr e uartdr) (u32 c) ∷ t
            → Leaves
                (if b
                  then device_written (reg_ptr e uartdr) (u32 b'\n')
                    ∷ device_written (reg_ptr e uartdr) (u32 c)
                    ∷ t
                  else device_written (reg_ptr e uartdr) (u32 c) ∷ t)
                ((if b then send_char (suc k) b'\n' else pure tt) e v)
        ends v t true h =
            subst
              (λ x.
                Leaves (device_written (reg_ptr e uartdr) (u32 b'\n') ∷ x)
                  (send_char (suc k) b'\n' e v))
              h (char_written b'\n' v)
        ends v t false h = h

        behind :
            (r : Run (Unit {0}))
            → Leaves (device_written (reg_ptr e uartdr) (u32 c) ∷ written w.trace) r
            → Leaves
                (char_sent c (written w.trace))
                (and_then r (λ _. (if c == b'\r' then send_char (suc k) b'\n' else pure tt) e))
        behind (ok a v) h = ends v (written w.trace) (c == b'\r') h
        behind (fail v) h = h
        behind (crash n v) h = h
        behind (out_of_fuel v) h = h

    chain :
        (cs : List ℕ) (t : Trace) (r : Run (Unit {0}))
        → Leaves t r
        → ((v : World) → Leaves (string_sent cs (written v.trace)) (uart_put_str (suc k) cs e v))
        → Leaves (string_sent cs t) (and_then r (λ _. uart_put_str (suc k) cs e))
    chain cs t (ok a v) h rest =
        subst (λ x. Leaves (string_sent cs x) (uart_put_str (suc k) cs e v)) h (rest v)
    chain cs t (fail v) h rest = h
    chain cs t (crash n v) h rest = h
    chain cs t (out_of_fuel v) h rest = h

    -- If the transmit register always has room after `k` polls at most, `uart_put_str` ends with a
    -- round more than that for each wait, and has written the characters of the string to the data
    -- register in order, a line feed after each carriage return, and nothing else to any register.
    pub uart_put_str-string_sent :
        (cs : List ℕ) (w : World)
        → Leaves (string_sent cs (written w.trace)) (uart_put_str (suc k) cs e w)
    unfolding uart_put_str string_sent ◌>>=◌
    uart_put_str-string_sent [] w = refl
    uart_put_str-string_sent (c ∷ cs) w =
        chain cs _ (uart_put_char (suc k) c e w) (char_put c w) (uart_put_str-string_sent cs)
