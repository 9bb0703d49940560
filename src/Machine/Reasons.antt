-- ===== src/Machine/Reasons.antt =====
-- Why a program fails or crashes: a pool has no object left, the kernel has refused a call, or
-- there is something wrong with its input.
use se_l4cp_poc.Prelude.{
  ℕ, ◌≤◌, ◌≡◌, ◌≢◌, refl, ◌∙◌, ◌⊎◌, inl, inr, Bool, true, false, String, Option, none, some, [],
  ◌∷◌, leb, leb→le, arith, ◌==◌, ==_iff, ==_false, Bool-cases, if◌then◌else◌,
}
use se_l4cp_poc.Layout.{Pool, pool_num}
use se_l4cp_poc.Machine.State.{Call, Event, invoked, printed, printed_hex64, Trace, idx, World, Env}
use se_l4cp_poc.Machine.Run.{
  Run, ok, fail, crash, out_of_fuel, Prog, and_then, or_else, pure, failure, exhausted, ask, gets,
  on_fail, emit, increment, prepare_temp_page, ◌>>=◌, invoke, try, get_idx,
}
use se_l4cp_poc.Machine.Yields.{Result, Yields}

-- The last call to the kernel, with its answer.
abbrev pub last_call : Trace → Option (Call × ℕ)
last_call [] = none
last_call (invoked c a ∷ t) = some (c, a)
last_call (_ ∷ t) = last_call t

-- The last call was refused with the error code `a`.
abbrev pub Refused : ℕ → World → Type 0
Refused a w = (a ≢ 0) × (c : Call) × (last_call w.trace ≡ some (c, a))

-- Why a program returns an error value: `Bad` is what can be wrong with the input.
abbrev pub Reason : Type 0 → World → Type 0
Reason Bad w = ((p : Pool) × (pool_num p ≤ idx p w.alloc_state)) ⊎ (((a : ℕ) × Refused a w) ⊎ Bad)

abbrev pub Explained : {A : Type 0} → Type 0 → Run A → Type 0
Explained Bad (ok a w) = Unit {0}
Explained Bad (fail w) = Reason Bad w
Explained Bad (crash n w) = Refused n w
Explained Bad (out_of_fuel w) = Unit {0}

pub record Explains {A : Type 0} (Bad : Type 0) (e : Env) (m : Prog A) : Type 0 where
  pub from : (w : World) → Explained Bad (m e w)

-- What `m` ends with where there is a reason to fail already.
pub record Fails {A : Type 0} (Bad : Type 0) (e : Env) (m : Prog A) : Type 0 where
  pub from : (w : World) → Reason Bad w → Explained Bad (m e w)

-- `v` is `w` with messages printed.
abbrev pub Printed : World → World → Type 0
Printed w v = (v.alloc_state ≡ w.alloc_state) × (last_call v.trace ≡ last_call w.trace)

pub record Tells (e : Env) (m : Prog (Unit {0})) : Type 0 where
  pub from : (w : World) → (v : World) × (m e w ≡ ok tt v) × Printed w v

module _ (Bad : Type 0) (w v : World) (same : Printed w v) where
  pub Refused-Printed : (a : ℕ) → Refused a w → Refused a v
  Refused-Printed a (not, c, is) = (not, c, same.1 ∙ is)

  pub Reason-Printed : Reason Bad w → Reason Bad v
  Reason-Printed (inl (p, empty)) = inl (p, rw same.0 empty)
  Reason-Printed (inr (inl (a, refusal))) = inr (inl (a, Refused-Printed a refusal))
  Reason-Printed (inr (inr bad)) = inr (inr bad)

module _ {e : Env} where
  pub Tells-puts : (s : String) → Tells e (emit (printed s))
  unfolding emit
  Tells-puts s = record { from = λ w. (_, refl, (refl, refl)) }

  pub Tells-puthex64 : (n : ℕ) → Tells e (emit (printed_hex64 n))
  unfolding emit
  Tells-puthex64 n = record { from = λ w. (_, refl, (refl, refl)) }

  pub Tells-bind :
      (m : Prog (Unit {0})) (k : Unit {0} → Prog (Unit {0}))
      → Tells e m
      → Tells e (k tt)
      → Tells e (m >>= k)
  unfolding ◌>>=◌
  Tells-bind m k tm tk = record {
    from = λ w.
        let (v, is, same) = tm.from w in
        let (u, is', same') = tk.from v in (u, rw is is', (same'.0 ∙ same.0, same'.1 ∙ same.1));
  }

module _ (Bad : Type 0) {A : Type 0} where
  handled :
      {e : Env} (r : Run A) (h : Prog (Unit {0}))
      → Explained Bad r
      → Tells e h
      → Explained Bad (or_else r (h e))
  handled (ok a v) h why t = tt
  handled (fail v) h why t = let (u, is, same) = t.from v in rw is (Reason-Printed Bad v u same why)
  handled (crash n v) h why t = why
  handled (out_of_fuel v) h why t = tt

module _ {Bad : Type 0} {e : Env} {A : Type 0} where
  pub Fails-failure : Fails Bad e (failure {A = A})
  unfolding failure
  Fails-failure = record { from = λ w h. h }

  pub Fails-then :
      (m : Prog (Unit {0})) (k : Unit {0} → Prog A)
      → Tells e m
      → Fails Bad e (k tt)
      → Fails Bad e (m >>= k)
  unfolding ◌>>=◌
  Fails-then m k tm fk = record {
    from =
        λ w h. let (v, is, same) = tm.from w in rw is (fk.from v (Reason-Printed Bad w v same h));
  }

  pub Fails-of : (m : Prog A) → Explains Bad e m → Fails Bad e m
  Fails-of m h = record { from = λ w _. h.from w }

  pub Fails-if :
      (b : Bool) (m n : Prog A) → Fails Bad e m → Fails Bad e n → Fails Bad e (if b then m else n)
  Fails-if true m n hm hn = hm
  Fails-if false m n hm hn = hn

  pub Explains-bad : (m : Prog A) → Fails Bad e m → Bad → Explains Bad e m
  Explains-bad m fails bad = record { from = λ w. fails.from w (inr (inr bad)) }

  pub Explains-pure : (a : A) → Explains Bad e (pure a)
  unfolding pure
  Explains-pure a = record { from = λ w. tt }

  pub Explains-exhausted : Explains Bad e (exhausted {A = A})
  unfolding exhausted
  Explains-exhausted = record { from = λ w. tt }

  pub Explains-ask : (f : Env → A) → Explains Bad e (ask f)
  unfolding ask
  Explains-ask f = record { from = λ w. tt }

  pub Explains-gets : (f : World → A) → Explains Bad e (gets f)
  unfolding gets
  Explains-gets f = record { from = λ w. tt }

  pub Explains-if :
      (b : Bool) (m n : Prog A)
      → Explains Bad e m
      → Explains Bad e n
      → Explains Bad e (if b then m else n)
  Explains-if true m n hm hn = hm
  Explains-if false m n hm hn = hn

  pub Explains-on_fail :
      (m : Prog A) (h : Prog (Unit {0}))
      → Explains Bad e m
      → Tells e h
      → Explains Bad e (on_fail m h)
  unfolding on_fail
  Explains-on_fail m h em t = record { from = λ w. handled Bad (m e w) h (em.from w) t }

  -- `if (idx >= POOL_NUM) ... else ...`
  pub Explains-guard :
      (pool : Pool) (m : Prog A) (n : ℕ → Prog A)
      → Fails Bad e m
      → ((i : ℕ) → Explains Bad e (n i))
      → Explains Bad e (get_idx pool >>= λ i. if leb (pool_num pool) i then m else n i)
  unfolding ◌>>=◌
  Explains-guard pool m n fm en = record {
    from = λ w. elim (Bool-cases (leb (pool_num pool) (idx pool w.alloc_state))) [
      | inl full ↦ rw full (fm.from w (inl (pool, leb→le _ _ full)))
      | inr room ↦ rw room ((en _).from w)
    ];
  }

  -- A call, and what is done with its answer.
  pub Explains-call :
      (c : Call) (k : ℕ → Prog A)
      → Explains Bad e (k 0)
      → ((err : ℕ) → err ≢ 0 → Fails Bad e (k err))
      → Explains Bad e (invoke c >>= k)
  unfolding invoke ◌>>=◌
  Explains-call c k accepted refused = record {
    from = λ w. elim (Bool-cases (e.kernel w.trace c == 0)) [
      | inl accept ↦
          let is : e.kernel w.trace c ≡ 0 = (==_iff _ _).0 accept in rw is (accepted.from _)
      | inr refusal ↦
          let not : e.kernel w.trace c ≢ 0 = λ p. ground (arith, refusal, p) in
          (refused _ not).from _ (inr (inl (_, (not, c, refl))))
    ];
  }

module _ {Bad : Type 0} {e : Env} {A B : Type 0} where
  known :
      (P : A → Type 0) (r : Run A) (k : A → Prog B)
      → Explained Bad r
      → Result P r
      → ((a : A) → P a → Explains Bad e (k a))
      → Explained Bad (and_then r (λ a. k a e))
  known P (ok a u) k h p hk = (hk a p).from u
  known P (fail u) k h p hk = h
  known P (crash n u) k h p hk = h
  known P (out_of_fuel u) k h p hk = tt

  pub Explains-bind_known :
      (P : A → Type 0) (m : Prog A) (k : A → Prog B)
      → Explains Bad e m
      → Yields e m P
      → ((a : A) → P a → Explains Bad e (k a))
      → Explains Bad e (m >>= k)
  unfolding ◌>>=◌
  Explains-bind_known P m k hm y hk = record {
    from = λ w. known P (m e w) k (hm.from w) (y.from w) hk;
  }

  then_explained :
      (r : Run A) (k : A → Prog B)
      → Explained Bad r
      → ((a : A) → Explains Bad e (k a))
      → Explained Bad (and_then r (λ a. k a e))
  then_explained (ok a u) k h hk = (hk a).from u
  then_explained (fail u) k h hk = h
  then_explained (crash n u) k h hk = h
  then_explained (out_of_fuel u) k h hk = tt

  pub Explains-bind :
      (m : Prog A) (k : A → Prog B)
      → Explains Bad e m
      → ((a : A) → Explains Bad e (k a))
      → Explains Bad e (m >>= k)
  unfolding ◌>>=◌
  Explains-bind m k hm hk = record { from = λ w. then_explained (m e w) k (hm.from w) hk }

  -- What is read from the environment is known.
  pub Explains-ask_bind :
      (f : Env → A) (k : A → Prog B) → Explains Bad e (k (f e)) → Explains Bad e (ask f >>= k)
  unfolding ◌>>=◌
  Explains-ask_bind f k h = record { from = λ w. h.from w }

module _ {Bad : Type 0} {e : Env} where
  pub Explains-emit : (ev : Event) → Explains Bad e (emit ev)
  unfolding emit
  Explains-emit ev = record { from = λ w. tt }

  pub Explains-increment : (pool : Pool) → Explains Bad e (increment pool)
  unfolding increment
  Explains-increment pool = record { from = λ w. tt }

  pub Explains-prepare_temp_page : Explains Bad e prepare_temp_page
  unfolding prepare_temp_page
  Explains-prepare_temp_page = record { from = λ w. tt }

  pub Explains-try : (c : Call) → Explains Bad e (try c)
  unfolding try
  Explains-try c =
      Explains-call c _ (Explains-pure tt) λ err not. rw (==_false err 0 not) Fails-failure

pub ruleset fails_rules = (Fails-failure, Fails-then, Tells-puts, Tells-puthex64, Tells-bind)

pub ruleset explains_rules = (
  fails_rules, Explains-pure, Explains-exhausted, Explains-ask, Explains-gets, Explains-if,
  Explains-on_fail, Explains-guard, Explains-emit, Explains-increment, Explains-prepare_temp_page,
  Explains-try, Explains-ask_bind, Explains-bind,
)
