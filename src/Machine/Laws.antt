-- ===== src/Machine/Laws.antt =====
-- The laws of the programs' sequencing.
use se_l4cp_poc.Prelude.{◌≡◌, refl}
use mathlib.Core.Path.{fun_ext}
use se_l4cp_poc.Machine.State.{World}
use se_l4cp_poc.Machine.Run.{Run, ok, fail, crash, out_of_fuel, Prog, and_then, pure, ◌>>=◌}

module _ {A B C : Type 0} where
  and_then_assoc :
      (r : Run A) (f : A → World → Run B) (g : B → World → Run C)
      → and_then (and_then r f) g ≡ and_then r (λ a w. and_then (f a w) g)
  and_then_assoc (ok a w) f g = refl
  and_then_assoc (fail w) f g = refl
  and_then_assoc (crash n w) f g = refl
  and_then_assoc (out_of_fuel w) f g = refl

  pub bind_assoc :
      (m : Prog A) (f : A → Prog B) (g : B → Prog C) → (m >>= f >>= g) ≡ (m >>= λ a. f a >>= g)
  unfolding ◌>>=◌
  bind_assoc m f g = fun_ext λ e. fun_ext λ w. and_then_assoc (m e w) (λ a. f a e) (λ b. g b e)

module _ {A B : Type 0} where
  pub pure-bind : (a : A) (f : A → Prog B) → (pure a >>= f) ≡ f a
  unfolding ◌>>=◌
  pure-bind a f = refl

pub ruleset monad_laws = (bind_assoc, pure-bind)
