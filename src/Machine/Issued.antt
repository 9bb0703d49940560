-- ===== src/Machine/Issued.antt =====
-- Programs that make the calls of a list, one after the other, and fail at the first that is
-- refused.
use se_l4cp_poc.Prelude.{
  ℕ, ◌≡◌, ◌≢◌, List, [], ◌∷◌, ◌++◌, inl, inr, arith, ◌==◌, ==_iff, Bool-cases,
}
use se_l4cp_poc.Machine.State.{Call, invoked, World, Env}
use se_l4cp_poc.Machine.Run.{Run, ok, fail, Prog, and_then, ask, try, invoke, ◌>>=◌}

abbrev pub said : Call → (answer : ℕ) → World → World
said c answer w = record w { trace = invoked c answer ∷ w.trace }

-- From the world `w` the calls are made, and the run ends as `r`.
pub data Issued (e : Env) : List Call → World → Run (Unit {0}) → Type 0 where
  all_made : {w : World} → Issued e [] w (ok tt w)
  accepted :
      {c : Call} {cs : List Call} {w : World} {r : Run (Unit {0})}
      → e.kernel w.trace c ≡ 0
      → Issued e cs (said c 0 w) r
      → Issued e (c ∷ cs) w r
  refused :
      {c : Call} {cs : List Call} {w : World}
      → e.kernel w.trace c ≢ 0
      → Issued e (c ∷ cs) w (fail (said c (e.kernel w.trace c) w))

pub record Issues (e : Env) (cs : List Call) (m : Prog (Unit {0})) : Type 0 where
  pub from : (w : World) → Issued e cs w (m e w)

module _ {e : Env} where
  pub Issues-try : (c : Call) → Issues e (c ∷ []) (try c)
  unfolding try invoke ◌>>=◌
  Issues-try c = record {
    from = λ w. elim (Bool-cases (e.kernel w.trace c == 0)) [
      | inl accept ↦
          let is : e.kernel w.trace c ≡ 0 = (==_iff _ _).0 accept in
          rw (accept, is) (accepted is all_made)
      | inr refusal ↦ rw refusal (refused (λ p. ground (arith, refusal, p)))
    ];
  }

  pub Issues-ask :
      {A : Type 0} (cs : List Call) (f : Env → A) (k : A → Prog (Unit {0}))
      → Issues e cs (k (f e))
      → Issues e cs (ask f >>= k)
  unfolding ◌>>=◌
  Issues-ask cs f k h = record { from = λ w. h.from w }

  Issued-then :
      {w : World} {r : Run (Unit {0})} (cs ds : List Call) (k : Unit {0} → Prog (Unit {0}))
      → Issued e cs w r
      → Issues e ds (k tt)
      → Issued e (cs ++ ds) w (and_then r (λ a. k a e))
  Issued-then cs ds k all_made h = h.from _
  Issued-then (c ∷ cs) ds k (accepted is more) h = accepted is (Issued-then cs ds k more h)
  Issued-then (c ∷ cs) ds k (refused not) h = refused not

  pub Issues-bind :
      (cs ds : List Call) (m : Prog (Unit {0})) (k : Unit {0} → Prog (Unit {0}))
      → Issues e cs m
      → Issues e ds (k tt)
      → Issues e (cs ++ ds) (m >>= k)
  unfolding ◌>>=◌
  Issues-bind cs ds m k hm hk = record { from = λ w. Issued-then cs ds k (hm.from w) hk }

  pub Issues-next :
      (c : Call) (cs : List Call) (m : Prog (Unit {0})) (k : Unit {0} → Prog (Unit {0}))
      → Issues e (c ∷ []) m
      → Issues e cs (k tt)
      → Issues e (c ∷ cs) (m >>= k)
  Issues-next c cs m k hm hk = Issues-bind (c ∷ []) cs m k hm hk

pub ruleset issues_rules = (Issues-try, Issues-ask, Issues-next)
