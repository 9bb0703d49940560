-- ===== src/Domains/Keeps.antt =====
-- What a program keeps of the pools and of a condition on the loader's variables.
use se_l4cp_poc.Prelude.{ℕ, ◌≡◌, ◌≤◌, sym, refl, subst, String, Bool, true, false, if◌then◌else◌}
use se_l4cp_poc.Machine.State.{LoaderState, World, Env, Event, Call}
use se_l4cp_poc.Machine.Run.{
  Run, ok, fail, crash, out_of_fuel, final, Prog, and_then, pure, ask, gets, emit, invoke,
  read_register, ◌>>=◌, with_memory,
}
use se_l4cp_poc.Machine.Bounds.{IsBounded}
use se_l4cp_poc.Create.{pd_create}
use se_l4cp_poc.Create.Bounds.{pd_create-IsBounded, pd_create_frame}
use se_l4cp_poc.Api.{irq_ack}
use se_l4cp_poc.Uart.{read_reg, write_reg, uart_get_char, uart_handle_irq}
use se_l4cp_poc.Loader.{elf_buffer_size}
use se_l4cp_poc.Loader.Invariant.{IsReceiving}
use se_l4cp_poc.Domains.{succeeded, create_child}

-- The pools are in order, and `L` holds of the loader's variables.
pub record IsSafe (L : LoaderState → Type 0) (w : World) : Type 0 where
  pub bounded : IsBounded w.alloc_state
  pub loader : L w.loader

-- The loader's variables are in order, and the size fits the buffer.
abbrev pub IsReady : Env → LoaderState → Type 0
IsReady e l = IsReceiving e l × (l.elf_size ≤ elf_buffer_size)

pub record Keeps {A : Type 0} (L : LoaderState → Type 0) (e : Env) (m : Prog A) : Type 0 where
  pub from : (w : World) → IsSafe L w → IsSafe L (final (m e w))

module _ {L : LoaderState → Type 0} {e : Env} {A : Type 0} where
  pub Keeps-pure : (a : A) → Keeps L e (pure a)
  unfolding pure
  Keeps-pure a = record { from = λ w s. s }

  pub Keeps-ask : (f : Env → A) → Keeps L e (ask f)
  unfolding ask
  Keeps-ask f = record { from = λ w s. s }

  pub Keeps-gets : (f : World → A) → Keeps L e (gets f)
  unfolding gets
  Keeps-gets f = record { from = λ w s. s }

  pub Keeps-if :
      (b : Bool) (m n : Prog A) → Keeps L e m → Keeps L e n → Keeps L e (if b then m else n)
  Keeps-if true m n km kn = km
  Keeps-if false m n km kn = kn

module _ {L : LoaderState → Type 0} {e : Env} where
  pub Keeps-emit : (ev : Event) → Keeps L e (emit ev)
  unfolding emit
  Keeps-emit ev = record { from = λ w s. record { bounded = s.bounded; loader = s.loader } }

  pub Keeps-invoke : (c : Call) → Keeps L e (invoke c)
  unfolding invoke
  Keeps-invoke c = record { from = λ w s. record { bounded = s.bounded; loader = s.loader } }

  pub Keeps-read_register : (a : ℕ) → Keeps L e (read_register a)
  unfolding read_register
  Keeps-read_register a = record { from = λ w s. record { bounded = s.bounded; loader = s.loader } }

module _ {L : LoaderState → Type 0} {e : Env} {A B : Type 0} where
  pub after :
      (r : Run A) (k : A → Prog B)
      → IsSafe L (final r)
      → ((a : A) → Keeps L e (k a))
      → IsSafe L (final (and_then r (λ a. k a e)))
  after (ok a w) k s kk = (kk a).from w s
  after (fail w) k s kk = s
  after (crash n w) k s kk = s
  after (out_of_fuel w) k s kk = s

  pub Keeps-bind :
      (m : Prog A) (k : A → Prog B)
      → Keeps L e m
      → ((a : A) → Keeps L e (k a))
      → Keeps L e (m >>= k)
  unfolding ◌>>=◌
  Keeps-bind m k km kk = record { from = λ w s. after (m e w) k (km.from w s) kk }

pub ruleset keeps_rules = (
  Keeps-pure, Keeps-ask, Keeps-gets, Keeps-if, Keeps-emit, Keeps-invoke, Keeps-read_register,
  Keeps-bind,
)

final-succeeded : (r : Run (Unit {0})) → final (succeeded r) ≡ final r
unfolding succeeded
final-succeeded (ok a w) = refl
final-succeeded (fail w) = refl
final-succeeded (crash n w) = refl
final-succeeded (out_of_fuel w) = refl

module _ {L : LoaderState → Type 0} {e : Env} where
  pub Keeps-pd_create :
      (m : ℕ → ℕ) (pd src : ℕ) → Keeps L e (λ e w. succeeded (with_memory m (pd_create pd src) e w))
  Keeps-pd_create m pd src = record {
    from = λ w s.
        let e' : Env = record e { memory = m } in
        subst (IsSafe L) (sym (final-succeeded (pd_create pd src e' w))) (record {
          bounded = pd_create-IsBounded e' w pd src s.bounded;
          loader = subst L (sym (pd_create_frame e' w pd src).2.loader) s.loader;
        });
  }

  pub Keeps-create_child :
      (pd vaddr : ℕ) (failed done : String) → Keeps L e (create_child pd vaddr failed done)
  unfolding create_child
  Keeps-create_child pd vaddr failed done = search (keeps_rules, Keeps-pd_create) depth 9

  pub Keeps-uart_handle_irq : Keeps L e uart_handle_irq
  unfolding uart_handle_irq write_reg
  Keeps-uart_handle_irq = search (keeps_rules) depth 16

  pub Keeps-uart_get_char : Keeps L e uart_get_char
  unfolding uart_get_char read_reg
  Keeps-uart_get_char = search (keeps_rules) depth 16

  pub Keeps-irq_ack : (channel : ℕ) → Keeps L e (irq_ack channel)
  unfolding irq_ack
  Keeps-irq_ack channel = search (keeps_rules) depth 9
