-- ===== src/Machine/Run.antt =====
-- Programs: they read the environment, change the world and end in one of four ways.
use se_l4cp_poc.Prelude.{ℕ, ◌+◌, ◌^◌, true, String, ◌∷◌, ltb, ◌==◌, if◌then◌else◌}
use se_l4cp_poc.Layout.{Pool}
use se_l4cp_poc.Machine.State.{
  Memory, idx, set_idx, Call, Event, invoked, stored8, stored32, device_read, device_written,
  printed, printed_hex64, LoaderState, World, Env,
}

-- `fail` is the error value of a C function (-1, NULL or the capability index 0), `crash err` the
-- fault that `sel4cp_internal_crash` provokes. A loop that needs more rounds than it was given runs
-- `out_of_fuel`.
pub data Run (A : Type 0) : Type 0 where
  ok : A → World → Run A
  fail : World → Run A
  crash : ℕ → World → Run A
  out_of_fuel : World → Run A

abbrev pub Prog : Type 0 → Type 0
Prog A = Env → World → Run A

-- The world that a run leaves.
abbrev pub final : {A : Type 0} → Run A → World
final (ok a w) = w
final (fail w) = w
final (crash n w) = w
final (out_of_fuel w) = w

module _ {A B : Type 0} where
  abbrev pub and_then : Run A → (A → World → Run B) → Run B
  and_then (ok a w) k = k a w
  and_then (fail w) k = fail w
  and_then (crash n w) k = crash n w
  and_then (out_of_fuel w) k = out_of_fuel w

module _ {A : Type 0} where
  unfoldable pub pure : A → Prog A
  pure a e w = ok a w

  unfoldable pub failure : Prog A
  failure e w = fail w

  unfoldable pub crashed : ℕ → Prog A
  crashed n e w = crash n w

  unfoldable pub exhausted : Prog A
  exhausted e w = out_of_fuel w

  unfoldable pub ask : (Env → A) → Prog A
  ask f e w = ok (f e) w

  unfoldable pub gets : (World → A) → Prog A
  gets f e w = ok (f w) w

  abbrev pub or_else : Run A → (World → Run (Unit {0})) → Run A
  or_else (ok a w) h = ok a w
  or_else (fail w) h = and_then (h w) (λ _ w'. fail w')
  or_else (crash n w) h = crash n w
  or_else (out_of_fuel w) h = out_of_fuel w

  -- `if (m fails) { handler; return error; }`
  unfoldable pub on_fail : Prog A → Prog (Unit {0}) → Prog A
  on_fail m handler e w = or_else (m e w) (handler e)

unfoldable pub emit : Event → Prog (Unit {0})
emit ev e w = ok tt (record w { trace = ev ∷ w.trace })

-- An update of `alloc_state`, and one of the loader's variables.
unfoldable pub increment : Pool → Prog (Unit {0})
increment p e w =
    ok tt (record w { alloc_state = set_idx p (idx p w.alloc_state + 1) w.alloc_state })

unfoldable pub prepare_temp_page : Prog (Unit {0})
prepare_temp_page e w =
    ok tt (record w { alloc_state = record w.alloc_state { temp_page_prepared = true } })

unfoldable pub set_loader : (LoaderState → LoaderState) → Prog (Unit {0})
set_loader f e w = ok tt (record w { loader = f w.loader })

module _ {A B : Type 0} where
  infixl 5 ◌>>=◌ ◌>>◌
  -- To open this is to open the commands above.
  unfoldable pub ◌>>=◌ : Prog A → (A → Prog B) → Prog B
  unfolding pure failure crashed exhausted ask gets on_fail emit increment prepare_temp_page
      set_loader
  ◌>>=◌ m k e w = and_then (m e w) (λ a. k a e)

  abbrev pub ◌>>◌ : Prog A → Prog B → Prog B
  m >> k = m >>= λ _. k

-- `sel4cp_dbg_puts` and `sel4cp_dbg_puthex64`
abbrev pub dbg_puts : String → Prog (Unit {0})
dbg_puts s = emit (printed s)

abbrev pub dbg_puthex64 : ℕ → Prog (Unit {0})
dbg_puthex64 n = emit (printed_hex64 n)

abbrev pub store8 : ℕ → ℕ → Prog (Unit {0})
store8 addr value = emit (stored8 addr value)

abbrev pub store32 : ℕ → ℕ → Prog (Unit {0})
store32 addr value = emit (stored32 addr value)

-- A system call, with the kernel's answer.
unfoldable pub invoke : Call → Prog ℕ
invoke c e w =
    let answer = e.kernel w.trace c in ok answer (record w { trace = invoked c answer ∷ w.trace })

-- `err = call; if (err != seL4_NoError) return -1;`
unfoldable pub try : Call → Prog (Unit {0})
try c = do err ← invoke c; if err == 0 then pure tt else failure

-- A read and a write of a device register.
unfoldable pub read_register : ℕ → Prog ℕ
read_register addr e w =
    let value = e.device w.trace addr in
    ok value (record w { trace = device_read addr value ∷ w.trace })

abbrev pub write_register : ℕ → ℕ → Prog (Unit {0})
write_register addr value = emit (device_written addr value)

-- A pool's field of `alloc_state`.
abbrev pub get_idx : Pool → Prog ℕ
get_idx p = gets (λ w. idx p w.alloc_state)

-- The library's functions read memory as it is when they are called.
abbrev pub with_memory : {A : Type 0} → Memory → Prog A → Prog A
with_memory m p = λ e. p (record e { memory = m })

-- `1 << n`, at type int
abbrev pub shift_one : Env → ℕ → ℕ
shift_one e n = if ltb n 31 then 2 ^ n else e.undefined_shift n
