-- ===== src/Machine/Evolves.antt =====
-- How the functions of sel4cp.h can change the world: events are added to the trace, slots are
-- taken from a pool that has one left, and the temporary page is marked as prepared. Every function
-- is a sequence of such steps, so what all steps keep, all functions keep.
use se_l4cp_poc.Prelude.{ℕ, ◌+◌, ◌<◌, String, Bool, true, false, ◌∷◌, if◌then◌else◌}
use se_l4cp_poc.Layout.{Pool, pool_num}
use se_l4cp_poc.Machine.State.{
  idx, set_idx, Call, tcb_write_registers, Event, invoked, stored8, stored32, printed,
  printed_hex64, World, Env,
}
use se_l4cp_poc.Machine.Run.{
  Run, ok, fail, crash, out_of_fuel, final, Prog, and_then, or_else, pure, failure, crashed,
  exhausted, ask, gets, on_fail, emit, prepare_temp_page, ◌>>=◌, invoke, try, dbg_puts,
  dbg_puthex64,
}

-- `Q` holds of the events that are added.
pub data Evolves (Q : Event → Type 0) (w : World) : World → Type 0 where
  here : Evolves Q w w
  says :
      {u : World}
      → Evolves Q w u
      → (ev : Event) → Q ev
      → Evolves Q w (record u { trace = ev ∷ u.trace })
  takes :
      {u : World} (p : Pool)
      → Evolves Q w u
      → idx p u.alloc_state < pool_num p
      → Evolves Q w (record u { alloc_state = set_idx p (idx p u.alloc_state + 1) u.alloc_state })
  prepares :
      {u : World}
      → Evolves Q w u
      → Evolves Q w (record u { alloc_state = record u.alloc_state { temp_page_prepared = true } })

pub Evolves-trans :
    {Q : Event → Type 0} {u v w : World} → Evolves Q u v → Evolves Q v w → Evolves Q u w
Evolves-trans p here = p
Evolves-trans p (says q ev h) = says (Evolves-trans p q) ev h
Evolves-trans p (takes pool q h) = takes pool (Evolves-trans p q) h
Evolves-trans p (prepares q) = prepares (Evolves-trans p q)

-- However `m` ends, it has made such steps.
pub record Goes {A : Type 0} (Q : Event → Type 0) (e : Env) (m : Prog A) : Type 0 where
  pub from : (w : World) → Evolves Q w (final (m e w))

module _ {Q : Event → Type 0} {e : Env} {A : Type 0} where
  pub Goes-pure : (a : A) → Goes Q e (pure a)
  unfolding pure
  Goes-pure a = record { from = λ w. here }

  pub Goes-failure : Goes Q e (failure {A = A})
  unfolding failure
  Goes-failure = record { from = λ w. here }

  pub Goes-crashed : (n : ℕ) → Goes Q e (crashed {A = A} n)
  unfolding crashed
  Goes-crashed n = record { from = λ w. here }

  pub Goes-exhausted : Goes Q e (exhausted {A = A})
  unfolding exhausted
  Goes-exhausted = record { from = λ w. here }

  pub Goes-ask : (f : Env → A) → Goes Q e (ask f)
  unfolding ask
  Goes-ask f = record { from = λ w. here }

  pub Goes-gets : (f : World → A) → Goes Q e (gets f)
  unfolding gets
  Goes-gets f = record { from = λ w. here }

  pub Goes-if : (b : Bool) (m n : Prog A) → Goes Q e m → Goes Q e n → Goes Q e (if b then m else n)
  Goes-if true m n gm gn = gm
  Goes-if false m n gm gn = gn

  pub Goes-or_else :
      (w : World) (r : Run A) (h : Prog (Unit {0}))
      → Evolves Q w (final r)
      → Goes Q e h
      → Evolves Q w (final (or_else r (h e)))
  Goes-or_else w (ok a u) h p g = p
  Goes-or_else w (fail u) h p g = ended (h e u) (Evolves-trans p (g.from u))
    where
      ended :
          (r : Run (Unit {0}))
          → Evolves Q w (final r)
          → Evolves Q w (final (and_then {B = A} r (λ _ v. fail v)))
      ended (ok a v) q = q
      ended (fail v) q = q
      ended (crash n v) q = q
      ended (out_of_fuel v) q = q
  Goes-or_else w (crash n u) h p g = p
  Goes-or_else w (out_of_fuel u) h p g = p

  pub Goes-on_fail :
      (m : Prog A) (h : Prog (Unit {0})) → Goes Q e m → Goes Q e h → Goes Q e (on_fail m h)
  unfolding on_fail
  Goes-on_fail m h gm gh = record { from = λ w. Goes-or_else w (m e w) h (gm.from w) gh }

module _ {Q : Event → Type 0} {e : Env} {A B : Type 0} where
  Goes-and_then :
      (w : World) (r : Run A) (k : A → Prog B)
      → Evolves Q w (final r)
      → ((a : A) → Goes Q e (k a))
      → Evolves Q w (final (and_then r (λ a. k a e)))
  Goes-and_then w (ok a u) k p g = Evolves-trans p ((g a).from u)
  Goes-and_then w (fail u) k p g = p
  Goes-and_then w (crash n u) k p g = p
  Goes-and_then w (out_of_fuel u) k p g = p

  pub Goes-bind :
      (m : Prog A) (k : A → Prog B) → Goes Q e m → ((a : A) → Goes Q e (k a)) → Goes Q e (m >>= k)
  unfolding ◌>>=◌
  Goes-bind m k gm gk = record { from = λ w. Goes-and_then w (m e w) k (gm.from w) gk }

module _ {Q : Event → Type 0} {e : Env} where
  pub Goes-emit : (ev : Event) → Q ev → Goes Q e (emit ev)
  unfolding emit
  Goes-emit ev h = record { from = λ w. says here ev h }

  pub Goes-invoke : (c : Call) → ((answer : ℕ) → Q (invoked c answer)) → Goes Q e (invoke c)
  unfolding invoke
  Goes-invoke c h = record { from = λ w. says here (invoked c (e.kernel w.trace c)) (h _) }

  pub Goes-try : (c : Call) → ((answer : ℕ) → Q (invoked c answer)) → Goes Q e (try c)
  unfolding try
  Goes-try c h = Goes-bind _ _ (Goes-invoke c h) (λ err. Goes-if _ _ _ (Goes-pure tt) Goes-failure)

  pub Goes-prepare_temp_page : Goes Q e prepare_temp_page
  unfolding prepare_temp_page
  Goes-prepare_temp_page = record { from = λ w. prepares here }

-- Calls that let no protection domain run: all but that of `sel4cp_internal_pd_restart`.
abbrev pub IsQuiet : Call → Type 0
IsQuiet (tcb_write_registers service resume arch_flags count pc) = ⊥
IsQuiet _ = Unit {0}

abbrev pub IsStill : Event → Type 0
IsStill (invoked call answer) = IsQuiet call
IsStill _ = Unit {0}

-- Events other than stores through the temporary page and calls that let one run.
abbrev pub IsPlain : Event → Type 0
IsPlain (stored8 addr value) = ⊥
IsPlain (stored32 addr value) = ⊥
IsPlain (invoked call answer) = IsQuiet call
IsPlain _ = Unit {0}

pub IsPlain-IsStill : (ev : Event) → IsPlain ev → IsStill ev
IsPlain-IsStill (stored8 addr value) p = tt
IsPlain-IsStill (stored32 addr value) p = tt
IsPlain-IsStill (invoked call answer) p = p
IsPlain-IsStill _ p = tt

abbrev pub Admits : (Event → Type 0) → Type 0
Admits Q = (ev : Event) → IsPlain ev → Q ev

module _ {Q : Event → Type 0} {e : Env} (plain : Admits Q) where
  pub Goes-puts : (s : String) → Goes Q e (dbg_puts s)
  Goes-puts s = Goes-emit (printed s) (plain (printed s) tt)

  pub Goes-puthex64 : (n : ℕ) → Goes Q e (dbg_puthex64 n)
  Goes-puthex64 n = Goes-emit (printed_hex64 n) (plain (printed_hex64 n) tt)

  pub Goes-call : (c : Call) → IsQuiet c → Goes Q e (invoke c)
  Goes-call c quiet = Goes-invoke c (λ answer. plain (invoked c answer) quiet)

  pub Goes-try_call : (c : Call) → IsQuiet c → Goes Q e (try c)
  Goes-try_call c quiet = Goes-try c (λ answer. plain (invoked c answer) quiet)

pub quiet : Unit {0}
quiet = tt

pub ruleset goes_rules = (
  Goes-pure, Goes-failure, Goes-crashed, Goes-exhausted, Goes-ask, Goes-gets, Goes-if, Goes-on_fail,
  Goes-bind, Goes-puts, Goes-puthex64, Goes-call, Goes-try_call, Goes-prepare_temp_page, quiet,
)
