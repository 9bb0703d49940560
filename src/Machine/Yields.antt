-- ===== src/Machine/Yields.antt =====
-- What holds of the result of a program that returns normally.
use se_l4cp_poc.Prelude.{Bool, true, false, if◌then◌else◌}
use se_l4cp_poc.Machine.State.{Event, World, Env}
use se_l4cp_poc.Machine.Run.{
  Run, ok, fail, crash, out_of_fuel, final, Prog, and_then, or_else, pure, failure, exhausted,
  on_fail, ◌>>=◌,
}
use se_l4cp_poc.Machine.Evolves.{Evolves, Evolves-trans, Goes}

-- `P` holds of the value of a run that returns one.
abbrev pub Result : {A : Type 0} → (A → Type 0) → Run A → Type 0
Result P (ok a w) = P a
Result P (fail w) = Unit {0}
Result P (crash n w) = Unit {0}
Result P (out_of_fuel w) = Unit {0}

pub record Yields {A : Type 0} (e : Env) (m : Prog A) (P : A → Type 0) : Type 0 where
  pub from : (w : World) → Result P (m e w)

module _ {A : Type 0} (P : A → Type 0) where
  failed : (r : Run (Unit {0})) → Result P (and_then r (λ _ v. fail v))
  failed (ok a v) = tt
  failed (fail v) = tt
  failed (crash n v) = tt
  failed (out_of_fuel v) = tt

  Result-or_else : (r : Run A) (h : World → Run (Unit {0})) → Result P r → Result P (or_else r h)
  Result-or_else (ok a u) h p = p
  Result-or_else (fail u) h p = failed (h u)
  Result-or_else (crash n u) h p = tt
  Result-or_else (out_of_fuel u) h p = tt

module _ {e : Env} {A : Type 0} (P : A → Type 0) where
  pub Yields-pure : (a : A) → P a → Yields e (pure a) P
  unfolding pure
  Yields-pure a h = record { from = λ w. h }

  pub Yields-failure : Yields e failure P
  unfolding failure
  Yields-failure = record { from = λ w. tt }

  pub Yields-exhausted : Yields e exhausted P
  unfolding exhausted
  Yields-exhausted = record { from = λ w. tt }

  pub Yields-if :
      (b : Bool) (m n : Prog A) → Yields e m P → Yields e n P → Yields e (if b then m else n) P
  Yields-if true m n hm hn = hm
  Yields-if false m n hm hn = hn

  pub Yields-on_fail : (m : Prog A) (h : Prog (Unit {0})) → Yields e m P → Yields e (on_fail m h) P
  unfolding on_fail
  Yields-on_fail m h y = record { from = λ w. Result-or_else P (m e w) (h e) (y.from w) }

module _ {e : Env} {A B : Type 0} where
  Result-and_then :
      (P : B → Type 0) (r : Run A) (k : A → Prog B)
      → ((a : A) → Yields e (k a) P)
      → Result P (and_then r (λ a. k a e))
  Result-and_then P (ok a u) k y = (y a).from u
  Result-and_then P (fail u) k y = tt
  Result-and_then P (crash n u) k y = tt
  Result-and_then P (out_of_fuel u) k y = tt

  pub Yields-bind :
      (P : B → Type 0) (m : Prog A) (k : A → Prog B)
      → ((a : A) → Yields e (k a) P)
      → Yields e (m >>= k) P
  unfolding ◌>>=◌
  Yields-bind P m k y = record { from = λ w. Result-and_then P (m e w) k y }

  known :
      (Q : Event → Type 0) (P : A → Type 0) (w : World) (r : Run A) (k : A → Prog B)
      → Evolves Q w (final r)
      → Result P r
      → ((a : A) → P a → Goes Q e (k a))
      → Evolves Q w (final (and_then r (λ a. k a e)))
  known Q P w (ok a u) k p h g = Evolves-trans p ((g a h).from u)
  known Q P w (fail u) k p h g = p
  known Q P w (crash n u) k p h g = p
  known Q P w (out_of_fuel u) k p h g = p

  -- The rest of a block may use what is known of the result.
  pub Goes-bind_known :
      {Q : Event → Type 0} (P : A → Type 0) (m : Prog A) (k : A → Prog B)
      → Goes Q e m
      → Yields e m P
      → ((a : A) → P a → Goes Q e (k a))
      → Goes Q e (m >>= k)
  unfolding ◌>>=◌
  Goes-bind_known {Q} P m k gm y gk = record {
    from = λ w. known Q P w (m e w) k (gm.from w) (y.from w) gk;
  }

  pub Yields-bind_known :
      (P : A → Type 0) (R : B → Type 0) (m : Prog A) (k : A → Prog B)
      → Yields e m P
      → ((a : A) → P a → Yields e (k a) R)
      → Yields e (m >>= k) R
  unfolding ◌>>=◌
  Yields-bind_known P R m k y yk = record { from = λ w. go (m e w) (y.from w) }
    where
      go : (r : Run A) → Result P r → Result R (and_then r (λ a. k a e))
      go (ok a u) h = (yk a h).from u
      go (fail u) h = tt
      go (crash n u) h = tt
      go (out_of_fuel u) h = tt
