-- ===== src/Machine/Halts.antt =====
-- Programs that have fuel enough: none of their runs ends with `out_of_fuel`.
use se_l4cp_poc.Prelude.{ℕ, Bool, true, false, if◌then◌else◌}
use se_l4cp_poc.Layout.{Pool}
use se_l4cp_poc.Machine.State.{Event, Call, World, Env}
use se_l4cp_poc.Machine.Run.{
  Run, ok, fail, crash, out_of_fuel, Prog, and_then, or_else, pure, failure, crashed, ask, gets,
  on_fail, emit, increment, prepare_temp_page, ◌>>=◌, invoke, try,
}
use se_l4cp_poc.Machine.Yields.{Result, Yields}

abbrev pub HasEnded : {A : Type 0} → Run A → Type 0
HasEnded (out_of_fuel w) = ⊥
HasEnded _ = Unit {0}

pub record Halts {A : Type 0} (e : Env) (m : Prog A) : Type 0 where
  pub from : (w : World) → HasEnded (m e w)

-- The handler of a failure.
module _ (A : Type 0) where
  handled : (r : Run (Unit {0})) → HasEnded r → HasEnded (and_then {B = A} r (λ _ v. fail v))
  handled (ok a v) h = tt
  handled (fail v) h = tt
  handled (crash n v) h = tt
  handled (out_of_fuel v) h = h

module _ {A : Type 0} where
  HasEnded-or_else :
      (r : Run A) (h : World → Run (Unit {0}))
      → HasEnded r
      → ((w : World) → HasEnded (h w))
      → HasEnded (or_else r h)
  HasEnded-or_else (ok a u) h hr hh = tt
  HasEnded-or_else (fail u) h hr hh = handled A (h u) (hh u)
  HasEnded-or_else (crash n u) h hr hh = tt
  HasEnded-or_else (out_of_fuel u) h hr hh = hr

  no_condition : (r : Run A) → Result (λ a. Unit {0}) r
  no_condition (ok a w) = tt
  no_condition (fail w) = tt
  no_condition (crash n w) = tt
  no_condition (out_of_fuel w) = tt

module _ {e : Env} {A : Type 0} where
  pub Halts-pure : (a : A) → Halts e (pure a)
  unfolding pure
  Halts-pure a = record { from = λ w. tt }

  pub Halts-failure : Halts e (failure {A = A})
  unfolding failure
  Halts-failure = record { from = λ w. tt }

  pub Halts-crashed : (n : ℕ) → Halts e (crashed {A = A} n)
  unfolding crashed
  Halts-crashed n = record { from = λ w. tt }

  pub Halts-ask : (f : Env → A) → Halts e (ask f)
  unfolding ask
  Halts-ask f = record { from = λ w. tt }

  pub Halts-gets : (f : World → A) → Halts e (gets f)
  unfolding gets
  Halts-gets f = record { from = λ w. tt }

  pub Halts-if : (b : Bool) (m n : Prog A) → Halts e m → Halts e n → Halts e (if b then m else n)
  Halts-if true m n hm hn = hm
  Halts-if false m n hm hn = hn

  pub Halts-on_fail :
      (m : Prog A) (h : Prog (Unit {0})) → Halts e m → Halts e h → Halts e (on_fail m h)
  unfolding on_fail
  Halts-on_fail m h hm hh = record {
    from = λ w. HasEnded-or_else (m e w) (h e) (hm.from w) hh.from;
  }

module _ {e : Env} {A B : Type 0} where
  known :
      (P : A → Type 0) (r : Run A) (k : A → Prog B)
      → HasEnded r
      → Result P r
      → ((a : A) → P a → Halts e (k a))
      → HasEnded (and_then r (λ a. k a e))
  known P (ok a u) k h p hk = (hk a p).from u
  known P (fail u) k h p hk = tt
  known P (crash n u) k h p hk = tt
  known P (out_of_fuel u) k h p hk = h

  -- The rest of a block may use what is known of the result.
  pub Halts-bind_known :
      (P : A → Type 0) (m : Prog A) (k : A → Prog B)
      → Halts e m
      → Yields e m P
      → ((a : A) → P a → Halts e (k a))
      → Halts e (m >>= k)
  unfolding ◌>>=◌
  Halts-bind_known P m k hm y hk = record {
    from = λ w. known P (m e w) k (hm.from w) (y.from w) hk;
  }

  pub Halts-bind :
      (m : Prog A) (k : A → Prog B) → Halts e m → ((a : A) → Halts e (k a)) → Halts e (m >>= k)
  Halts-bind m k hm hk =
      Halts-bind_known (λ a. Unit {0}) m k hm (record { from = λ w. no_condition (m e w) })
        (λ a _. hk a)

module _ {e : Env} where
  pub Halts-emit : (ev : Event) → Halts e (emit ev)
  unfolding emit
  Halts-emit ev = record { from = λ w. tt }

  pub Halts-increment : (pool : Pool) → Halts e (increment pool)
  unfolding increment
  Halts-increment pool = record { from = λ w. tt }

  pub Halts-prepare_temp_page : Halts e prepare_temp_page
  unfolding prepare_temp_page
  Halts-prepare_temp_page = record { from = λ w. tt }

  pub Halts-invoke : (c : Call) → Halts e (invoke c)
  unfolding invoke
  Halts-invoke c = record { from = λ w. tt }

  pub Halts-try : (c : Call) → Halts e (try c)
  unfolding try
  Halts-try c =
      Halts-bind _ _ (Halts-invoke c) (λ err. Halts-if _ _ _ (Halts-pure tt) Halts-failure)

pub ruleset halts_rules = (
  Halts-pure, Halts-failure, Halts-crashed, Halts-ask, Halts-gets, Halts-if, Halts-on_fail,
  Halts-bind, Halts-emit, Halts-increment, Halts-prepare_temp_page, Halts-invoke, Halts-try,
)
