-- ===== src/Elf/Strings.antt =====
-- `sel4cp_internal_are_equal` against the equality of strings.
use native.Mathlib.Numerals.{add-one}
use se_l4cp_poc.Prelude.{
  ℕ, zero, suc, ◌+◌, ◌≤◌, ◌<◌, ◌≡◌, ◌∙◌, ◌≢◌, ◌↔◌, inl, inr, Bool, true, false, Option, some, arith,
  ◌==◌, Bool-cases, ==_iff,
}
use se_l4cp_poc.Elf.{CString, are_equal_from, are_equal}

-- A string of `n` bytes and a terminator.
abbrev pub IsTerminated : CString → ℕ → Type 0
IsTerminated a n = (a n ≡ 0) × ((i : ℕ) → i < n → a i ≢ 0)

-- The two strings agree from byte `i` up to the terminator, at `n`.
abbrev pub AgreeFrom : CString → CString → ℕ → ℕ → Type 0
AgreeFrom a b i n = (j : ℕ) → i ≤ j → j ≤ n → a j ≡ b j

abbrev pub Decides : Option Bool → Type 0 → Type 0
Decides o P = (r : Bool) × (o ≡ some r) × ((r ≡ true) ↔ P)

module _ (a b : CString) (k i : ℕ) where
  differs : a i ≢ 0 → (a i == b i) ≡ false → are_equal_from (suc k) a b i ≡ some false
  unfolding are_equal_from
  differs live ne = ground arith

  agrees :
      a i ≢ 0 → (a i == b i) ≡ true → are_equal_from (suc k) a b i ≡ are_equal_from k a b (i + 1)
  unfolding are_equal_from
  agrees live eq = ground arith

  at_terminator : a i ≡ 0 → are_equal_from (suc k) a b i ≡ some (b i == 0)
  unfolding are_equal_from
  at_terminator stop = ground arith

module _ (a b : CString) (n : ℕ) (t : IsTerminated a n) where
  AgreeFrom-step : (i : ℕ) → a i ≡ b i → AgreeFrom a b (i + 1) n → AgreeFrom a b i n
  AgreeFrom-step i e rest j lo hi = elim (Bool-cases (i == j)) [
    | inl same ↦ let p : i ≡ j = ground arith in rw (← p) e
    | inr other ↦ rest j (ground arith) hi
  ]

  from : (d i : ℕ) → i + d ≡ n → Decides (are_equal_from (suc d) a b i) (AgreeFrom a b i n)
  from zero i e =
      let here : i ≡ n = omega arith in
      let stop : a i ≡ 0 = rw here t.0 in
      (
        b i == 0,
        at_terminator a b 0 i stop,
        (
          λ zero_b j lo hi. let p : j ≡ i = omega arith in rw p (ground arith),
          λ agree. let q : a i ≡ b i = agree i (omega arith) (omega arith) in ground arith,
        ),
      )
  from (suc d) i e = elim (Bool-cases (a i == b i)) [
    | inl eq ↦
        let (r, run, decide) = from d (i + 1) (omega arith) in
        (
          r,
          agrees a b (suc d) i (t.1 i (omega arith)) eq ∙ run,
          (
            λ yes_r. AgreeFrom-step i ((==_iff _ _).0 eq) (decide.0 yes_r),
            λ agree. decide.1 (λ j lo hi. agree j (omega arith) hi),
          ),
        )
    | inr ne ↦ (
      false,
      differs a b (suc d) i (t.1 i (omega arith)) ne,
      (
        λ absurdity. cc,
        λ agree. let q : a i ≡ b i = agree i (omega arith) (omega arith) in ground arith,
      ),
    )
  ]

  -- With a round for each byte of the first string and its terminator, the comparison ends, and
  -- answers true exactly if the strings agree in every byte up to that terminator.
  pub are_equal-decides :
      Decides (are_equal (n + 1) (some a) (some b)) ((i : ℕ) → i ≤ n → a i ≡ b i)
  unfolding are_equal
  are_equal-decides =
      let (r, run, decide) = from n 0 (omega arith) in
      (
        r,
        rw add-one run,
        (
          λ yes_r i hi. decide.0 yes_r i (omega arith) hi,
          λ agree. decide.1 (λ j lo hi. agree j hi),
        ),
      )
