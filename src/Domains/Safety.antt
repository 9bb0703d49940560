-- ===== src/Domains/Safety.antt =====
-- What root and child keep, whatever notifications they get and whatever the kernel, the device and
-- the sender of a file do.
use se_l4cp_poc.Prelude.{
  ℕ, ◌<◌, ◌⊎◌, inl, inr, leb, leb→le, leb_false→lt, Bool-cases, sym, subst, String, Bool, true,
  false, List, [], ◌∷◌, if◌then◌else◌,
}
use se_l4cp_poc.Machine.State.{World, Env}
use se_l4cp_poc.Machine.Run.{Run, ok, fail, crash, out_of_fuel, final, Prog, and_then, ◌>>=◌}
use se_l4cp_poc.Machine.Bounds.{IsBounded}
use se_l4cp_poc.Loader.{elf_buffer_size, handle_input}
use se_l4cp_poc.Loader.Invariant.{IsReceiving, handle_input-Receives}
use se_l4cp_poc.Domains.{handle_uart_irq}
use se_l4cp_poc.Domains.Root
use se_l4cp_poc.Domains.Child
use se_l4cp_poc.Domains.Keeps.{
  IsSafe, IsReady, Keeps, after, keeps_rules, Keeps-pure, Keeps-if, Keeps-create_child,
  Keeps-uart_handle_irq, Keeps-uart_get_char, Keeps-irq_ack,
}

-- From a ready state, the loader's variables stay in order, with a size that may not fit.
record Handles {A : Type 0} (e : Env) (m : Prog A) : Type 0 where
  from : (w : World) → IsSafe (IsReady e) w → IsSafe (IsReceiving e) (final (m e w))

module _ {e : Env} {A : Type 0} where
  Handles-Keeps : (m : Prog A) → Keeps (IsReady e) e m → Handles e m
  Handles-Keeps m keeps = record {
    from = λ w s.
        let after = keeps.from w s in record { bounded = after.bounded; loader = after.loader.0 };
  }

module _ {e : Env} {A B : Type 0} where
  weaker :
      (r : Run A) (k : A → Prog B)
      → IsSafe (IsReady e) (final r)
      → ((a : A) → Handles e (k a))
      → IsSafe (IsReceiving e) (final (and_then r (λ a. k a e)))
  weaker (ok a w) k s h = (h a).from w s
  weaker (fail w) k s h = record { bounded = s.bounded; loader = s.loader.0 }
  weaker (crash n w) k s h = record { bounded = s.bounded; loader = s.loader.0 }
  weaker (out_of_fuel w) k s h = record { bounded = s.bounded; loader = s.loader.0 }

  Handles-later :
      (m : Prog A) (k : A → Prog B)
      → Keeps (IsReady e) e m
      → ((a : A) → Handles e (k a))
      → Handles e (m >>= k)
  unfolding ◌>>=◌
  Handles-later m k keeps h = record { from = λ w s. weaker (m e w) k (keeps.from w s) h }

  Handles-first :
      (m : Prog A) (k : A → Prog B)
      → Handles e m
      → ((a : A) → Keeps (IsReceiving e) e (k a))
      → Handles e (m >>= k)
  unfolding ◌>>=◌
  Handles-first m k h keeps = record { from = λ w s. after (m e w) k (h.from w s) keeps }

module _ {e : Env} where
  Handles-if :
      (b : Bool) (m n : Prog (Unit {0}))
      → Handles e m
      → Handles e n
      → Handles e (if b then m else n)
  Handles-if true m n hm hn = hm
  Handles-if false m n hm hn = hn

  Handles-handle_input : (c : ℕ) → Handles e (handle_input c)
  Handles-handle_input c = record {
    from = λ w s.
        let h = handle_input-Receives e c w s.loader.0 s.loader.1 in
        record { bounded = subst IsBounded (sym h.alloc_state) s.bounded; loader = h.receiving };
  }

  Handles-handle_uart_irq :
      (channel pd : ℕ) (failed done : String) → Handles e (handle_uart_irq channel pd failed done)
  unfolding handle_uart_irq
  Handles-handle_uart_irq channel pd failed done = Handles-later _ _ Keeps-uart_handle_irq λ _.
      Handles-later _ _ Keeps-uart_get_char λ c. Handles-later _ _ (Keeps-irq_ack channel) λ _.
        Handles-first _ _ (Handles-handle_input _)
          λ vaddr. Keeps-if _ _ _ (Keeps-pure tt) (Keeps-create_child pd vaddr failed done)

ruleset handles_rules = (Handles-if, Handles-handle_uart_irq, Handles-Keeps)

module _ {e : Env} where
  Handles-root : (channel : ℕ) → Handles e (Root.notified channel)
  unfolding Root.notified
  Handles-root channel = search (handles_rules, keeps_rules) depth 16

  Handles-child : (channel : ℕ) → Handles e (Child.notified channel)
  unfolding Child.notified
  Handles-child channel = search (handles_rules, keeps_rules) depth 20

-- The world after notifications, one after the other.
pub notify_all : (ℕ → Prog (Unit {0})) → List ℕ → Env → World → World
notify_all notified [] e w = w
notify_all notified (channel ∷ channels) e w =
    notify_all notified channels e (final (notified channel e w))

-- After one of the notifications the size is above the buffer's.
abbrev pub Overlong : (ℕ → Prog (Unit {0})) → List ℕ → Env → World → Type 0
Overlong notified [] e w = ⊥
Overlong notified (channel ∷ channels) e w =
    (elf_buffer_size < (final (notified channel e w)).loader.elf_size)
    ⊎ Overlong notified channels e (final (notified channel e w))

all_kept :
    (notified : ℕ → Prog (Unit {0})) (channels : List ℕ) (e : Env) (w : World)
    → ((channel : ℕ) → Handles e (notified channel))
    → IsSafe (IsReady e) w
    → IsSafe (IsReady e) (notify_all notified channels e w) ⊎ Overlong notified channels e w
unfolding notify_all
all_kept notified [] e w handles s = inl s
all_kept notified (channel ∷ channels) e w handles s =
    let v = final (notified channel e w) in
    let now : IsSafe (IsReceiving e) v = (handles channel).from w s in
    elim (Bool-cases (leb v.loader.elf_size elf_buffer_size)) [
      | inl fits ↦
          elim (all_kept notified channels e v handles
            (record { bounded = now.bounded; loader = (now.loader, leb→le _ _ fits) })) [
              | inl safe ↦ inl safe
              | inr later ↦ inr (inr later)
            ]
      | inr large ↦ inr (inl (leb_false→lt _ _ large))
    ]

-- If the indices of `alloc_state` are within their pools, the loader's variables in order and the
-- size fits the buffer, then so it is after any sequence of notifications, in root as in child,
-- whatever the kernel and the device answer, unless after one of these notifications the size is
-- one above ELF_BUFFER_SIZE.
pub notified-IsSafe :
    (channels : List ℕ) (e : Env) (w : World)
    → IsSafe (IsReady e) w
    → (IsSafe (IsReady e) (notify_all Root.notified channels e w)
        ⊎ Overlong Root.notified channels e w)
      × (IsSafe (IsReady e) (notify_all Child.notified channels e w)
          ⊎ Overlong Child.notified channels e w)
notified-IsSafe channels e w s = (
  all_kept Root.notified channels e w Handles-root s,
  all_kept Child.notified channels e w Handles-child s,
)
