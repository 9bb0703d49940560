-- ===== src/Machine/Behaves.antt =====
-- What holds where a program returns, and where it fails or crashes.
use se_l4cp_poc.Machine.State.{World}
use se_l4cp_poc.Machine.Run.{Run, ok, fail, crash, out_of_fuel, final, and_then}
use se_l4cp_poc.Machine.Halts.{HasEnded}

-- `P` holds where a run returns, `Q` where it fails or crashes, and it ends.
abbrev pub Behaves : {A : Type 0} → (A → World → Type 0) → (World → Type 0) → Run A → Type 0
Behaves P Q (ok a v) = P a v
Behaves P Q (fail v) = Q v
Behaves P Q (crash n v) = Q v
Behaves P Q (out_of_fuel v) = ⊥

module _ {A B : Type 0} (P : A → World → Type 0) (R : B → World → Type 0) (Q : World → Type 0) where
  pub Behaves-then :
      (r : Run A) (k : A → World → Run B)
      → Behaves P Q r
      → ((a : A) (v : World) → P a v → Behaves R Q (k a v))
      → Behaves R Q (and_then r k)
  Behaves-then (ok a v) k h hk = hk a v h
  Behaves-then (fail v) k h hk = h
  Behaves-then (crash n v) k h hk = h
  Behaves-then (out_of_fuel v) k h hk = h

module _ (P Q : World → Type 0) where
  pub final-Behaves :
      (r : Run (Unit {0})) → P (final r) → Q (final r) → HasEnded r → Behaves (λ _. P) Q r
  final-Behaves (ok a v) p q h = p
  final-Behaves (fail v) p q h = q
  final-Behaves (crash n v) p q h = q
  final-Behaves (out_of_fuel v) p q h = h

module _ {A : Type 0} (P : A → World → Type 0) (Q R : World → Type 0) where
  pub Behaves-weaken : (r : Run A) → Behaves P Q r → ((v : World) → Q v → R v) → Behaves P R r
  Behaves-weaken (ok a v) h weaker = h
  Behaves-weaken (fail v) h weaker = weaker v h
  Behaves-weaken (crash n v) h weaker = weaker v h
  Behaves-weaken (out_of_fuel v) h weaker = h
