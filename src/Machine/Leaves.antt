-- ===== src/Machine/Leaves.antt =====
-- Programs that leave a part of the world as it is, however they end, and what holds of a world
-- that a program returns with.
use se_l4cp_poc.Prelude.{◌≡◌, refl, ◌∙◌, Bool, true, false, ◌∷◌, ℕ, if◌then◌else◌}
use se_l4cp_poc.Machine.State.{World, Env, Event, Call, invoked}
use se_l4cp_poc.Machine.Run.{
  Run, ok, fail, crash, out_of_fuel, final, Prog, and_then, or_else, pure, failure, crashed, ask,
  gets, on_fail, emit, invoke, ◌>>=◌,
}
use se_l4cp_poc.Machine.Yields.{Result}

module _ {X : Type 0} (f : World → X) (A : Type 0) where
  handled :
      (r : Run (Unit {0})) (x : X)
      → f (final r) ≡ x
      → f (final (and_then {B = A} r (λ _ v. fail v))) ≡ x
  handled (ok a v) x h = h
  handled (fail v) x h = h
  handled (crash n v) x h = h
  handled (out_of_fuel v) x h = h

pub record Leaves {X A : Type 0} (f : World → X) (e : Env) (m : Prog A) : Type 0 where
  pub from : (w : World) → f (final (m e w)) ≡ f w

module _ {X : Type 0} {f : World → X} {e : Env} {A : Type 0} where
  pub Leaves-pure : (a : A) → Leaves f e (pure a)
  unfolding pure
  Leaves-pure a = record { from = λ w. refl }

  pub Leaves-failure : Leaves f e (failure {A = A})
  unfolding failure
  Leaves-failure = record { from = λ w. refl }

  pub Leaves-crashed : (n : ℕ) → Leaves f e (crashed {A = A} n)
  unfolding crashed
  Leaves-crashed n = record { from = λ w. refl }

  pub Leaves-ask : (g : Env → A) → Leaves f e (ask g)
  unfolding ask
  Leaves-ask g = record { from = λ w. refl }

  pub Leaves-gets : (g : World → A) → Leaves f e (gets g)
  unfolding gets
  Leaves-gets g = record { from = λ w. refl }

  pub Leaves-if :
      (b : Bool) (m n : Prog A) → Leaves f e m → Leaves f e n → Leaves f e (if b then m else n)
  Leaves-if true m n lm ln = lm
  Leaves-if false m n lm ln = ln

  left_by_handler :
      (x : X) (r : Run A) (h : Prog (Unit {0}))
      → f (final r) ≡ x
      → Leaves f e h
      → f (final (or_else r (h e))) ≡ x
  left_by_handler x (ok a w) h same l = same
  left_by_handler x (fail w) h same l = handled f A (h e w) x (l.from w ∙ same)
  left_by_handler x (crash n w) h same l = same
  left_by_handler x (out_of_fuel w) h same l = same

  pub Leaves-on_fail :
      (m : Prog A) (h : Prog (Unit {0})) → Leaves f e m → Leaves f e h → Leaves f e (on_fail m h)
  unfolding on_fail
  Leaves-on_fail m h lm lh = record { from = λ w. left_by_handler _ (m e w) h (lm.from w) lh }

module _ {X : Type 0} {f : World → X} {e : Env} where
  pub Leaves-emit :
      (ev : Event)
      → ((w : World) → f (record w { trace = ev ∷ w.trace }) ≡ f w)
      → Leaves f e (emit ev)
  unfolding emit
  Leaves-emit ev h = record { from = λ w. h w }

  pub Leaves-invoke :
      (c : Call)
      → ((answer : ℕ) (w : World) → f (record w { trace = invoked c answer ∷ w.trace }) ≡ f w)
      → Leaves f e (invoke c)
  unfolding invoke
  Leaves-invoke c h = record { from = λ w. h _ w }

module _ {X : Type 0} {f : World → X} {e : Env} {A B : Type 0} where
  left :
      (x : X) (r : Run A) (k : A → Prog B)
      → f (final r) ≡ x
      → ((a : A) → Leaves f e (k a))
      → f (final (and_then r (λ a. k a e))) ≡ x
  left x (ok a w) k h l = (l a).from w ∙ h
  left x (fail w) k h l = h
  left x (crash n w) k h l = h
  left x (out_of_fuel w) k h l = h

  pub Leaves-bind :
      (m : Prog A) (k : A → Prog B)
      → Leaves f e m
      → ((a : A) → Leaves f e (k a))
      → Leaves f e (m >>= k)
  unfolding ◌>>=◌
  Leaves-bind m k lm lk = record { from = λ w. left _ (m e w) k (lm.from w) lk }

pub ruleset leaves_rules = (
  Leaves-pure, Leaves-failure, Leaves-crashed, Leaves-ask, Leaves-gets, Leaves-if, Leaves-on_fail,
  Leaves-bind,
)

-- `Q` holds of the value and the world of a run that returns.
abbrev pub Returns : {A : Type 0} → (A → World → Type 0) → Run A → Type 0
Returns Q (ok a w) = Q a w
Returns Q (fail w) = Unit {0}
Returns Q (crash n w) = Unit {0}
Returns Q (out_of_fuel w) = Unit {0}

module _ {A B : Type 0} (Q : A → World → Type 0) (R : B → World → Type 0) where
  pub Returns-then :
      (r : Run A) (k : A → World → Run B)
      → Returns Q r
      → ((a : A) (w : World) → Q a w → Returns R (k a w))
      → Returns R (and_then r k)
  Returns-then (ok a w) k h hk = hk a w h
  Returns-then (fail w) k h hk = tt
  Returns-then (crash n w) k h hk = tt
  Returns-then (out_of_fuel w) k h hk = tt

module _ {A : Type 0} (Q : A → World → Type 0) where
  failed : (r : Run (Unit {0})) → Returns Q (and_then r (λ _ v. fail v))
  failed (ok a v) = tt
  failed (fail v) = tt
  failed (crash n v) = tt
  failed (out_of_fuel v) = tt

  pub Returns-or_else :
      (r : Run A) (h : World → Run (Unit {0})) → Returns Q r → Returns Q (or_else r h)
  Returns-or_else (ok a w) h q = q
  Returns-or_else (fail w) h q = failed (h w)
  Returns-or_else (crash n w) h q = tt
  Returns-or_else (out_of_fuel w) h q = tt

  pub final-Returns : (r : Run A) → ((a : A) → Q a (final r)) → Returns Q r
  final-Returns (ok a w) h = h a
  final-Returns (fail w) h = tt
  final-Returns (crash n w) h = tt
  final-Returns (out_of_fuel w) h = tt

module _ {A : Type 0} (P : A → Type 0) (Q : A → World → Type 0) where
  pub Returns-and : (r : Run A) → Result P r → Returns Q r → Returns (λ a w. P a × Q a w) r
  Returns-and (ok a w) p q = (p, q)
  Returns-and (fail w) p q = tt
  Returns-and (crash n w) p q = tt
  Returns-and (out_of_fuel w) p q = tt

module _ {A : Type 0} (Q R : A → World → Type 0) where
  pub Returns-map : (r : Run A) → Returns Q r → ((a : A) (w : World) → Q a w → R a w) → Returns R r
  Returns-map (ok a w) q h = h a w q
  Returns-map (fail w) q h = tt
  Returns-map (crash n w) q h = tt
  Returns-map (out_of_fuel w) q h = tt
