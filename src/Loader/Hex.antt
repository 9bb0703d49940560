-- ===== src/Loader/Hex.antt =====
-- `elf_loader_parse_hex64` against the value of a numeral read from the left.
use native.Mathlib.Nat.{pow-suc}
use se_l4cp_poc.Prelude.{
  ℕ, zero, suc, ◌+◌, ◌-◌, ◌*◌, ◌^◌, ◌≤◌, ◌<◌, ◌≡◌, refl, ap, ◌∙◌, none, some, arith,
}
use se_l4cp_poc.Prelude.Words.{u64}
use se_l4cp_poc.Machine.State.{Env, World}
use se_l4cp_poc.Machine.Run.{ok, pure, shift_one, dbg_puts, ◌>>=◌, ◌>>◌}
use se_l4cp_poc.Loader.{digit_value, parse_hex64_from, parse_hex64}

-- The value of a character as a digit, 0 if it is none.
unfoldable pub value : ℕ → ℕ
value c = elim (digit_value c) [ none ↦ 0 | some v ↦ v ]

abbrev pub IsDigit : ℕ → Type 0
IsDigit c = digit_value c ≡ some (value c)

-- The value of the first `n` digits.
unfoldable pub number : (ℕ → ℕ) → ℕ → ℕ
number digits zero = 0
number digits (suc n) = number digits n * 16 + value (digits n)

value-lt : (c : ℕ) → value c < 16
unfolding value digit_value
value-lt c = ground arith

-- The weights that `1 << (4 * k)` has at type int, up to the eighth digit from the right.
weight : (e : Env) (k : ℕ) → k < 8 → shift_one e (4 * k) ≡ 16 ^ k
weight e zero h = refl
weight e (suc zero) h = refl
weight e (suc (suc zero)) h = refl
weight e (suc (suc (suc zero))) h = refl
weight e (suc (suc (suc (suc zero)))) h = refl
weight e (suc (suc (suc (suc (suc zero))))) h = refl
weight e (suc (suc (suc (suc (suc (suc zero)))))) h = refl
weight e (suc (suc (suc (suc (suc (suc (suc zero))))))) h = refl
weight e (suc (suc (suc (suc (suc (suc (suc (suc k)))))))) h = absurd (omega arith)

weight-le : (k : ℕ) → k < 8 → 16 ^ k ≤ 2 ^ 28
weight-le zero h = omega arith
weight-le (suc zero) h = omega arith
weight-le (suc (suc zero)) h = omega arith
weight-le (suc (suc (suc zero))) h = omega arith
weight-le (suc (suc (suc (suc zero)))) h = omega arith
weight-le (suc (suc (suc (suc (suc zero))))) h = omega arith
weight-le (suc (suc (suc (suc (suc (suc zero)))))) h = omega arith
weight-le (suc (suc (suc (suc (suc (suc (suc zero))))))) h = omega arith
weight-le (suc (suc (suc (suc (suc (suc (suc (suc k)))))))) h = absurd (omega arith)

accumulate : (r v p h : ℕ) → r + v * p + 16 * p * h ≡ r + p * (h * 16 + v)
accumulate r v p h = omega arith

product-le : (v p : ℕ) → v < 16 → v * p ≤ 15 * p
product-le v p h = grind arith

module _ (shift digits : ℕ → ℕ) (n i r v : ℕ) where
  pub digit_step :
      digit_value (digits i) ≡ some v
      → parse_hex64_from (suc i) shift digits n r
        ≡ parse_hex64_from i shift digits n (u64 (r + v * shift (4 * (n - 1 - i))))
  unfolding parse_hex64_from
  digit_step h = ground arith

  pub invalid_step :
      digit_value (digits i) ≡ none
      → parse_hex64_from (suc i) shift digits n r
        ≡ (dbg_puts "elf_loader: invalid hexadecimal digit encountered!\n" >> pure 0)
  unfolding parse_hex64_from
  invalid_step h = ground arith

module _ (e : Env) (digits : ℕ → ℕ) (n : ℕ) (short : n ≤ 8) where
  -- `i` digits are left, and the `k` behind them have the value `r`.
  parse_hex64_from-number :
      (i k r : ℕ) (w : World)
      → i + k ≡ n
      → ((j : ℕ) → j < i → IsDigit (digits j))
      → r < 16 ^ k
      → parse_hex64_from i (shift_one e) digits n r e w ≡ ok (r + 16 ^ k * number digits i) w
  parse_hex64_from-number zero k r w place valid small =
      unfold parse_hex64_from number pure in ap (λ x. ok x w) (omega arith)
  parse_hex64_from-number (suc i) k r w place valid small =
      let k_small : k < 8 = omega arith in
      let index : n - 1 - i ≡ k = omega arith in
      let next : 16 ^ suc k ≡ 16 * 16 ^ k = omega (arith, pow-suc 16 k) in
      let v_small : value (digits i) * 16 ^ k ≤ 15 * 16 ^ k =
        product-le (value (digits i)) (16 ^ k) (value-lt (digits i)) in
      let exact : u64 (r + value (digits i) * 16 ^ k) ≡ r + value (digits i) * 16 ^ k =
        omega (arith, weight-le k k_small) in
      rw
        (
          digit_step (shift_one e) digits n i r (value (digits i)) (valid i (omega arith)),
          index,
          weight e k k_small,
          exact,
        )
        (parse_hex64_from-number i (suc k) (r + value (digits i) * 16 ^ k) w (omega arith)
            (λ j lt. valid j (omega arith)) (omega arith)
          ∙ ap (λ x. ok x w)
              (rw next
                (unfold number in accumulate r (value (digits i)) (16 ^ k) (number digits i))))

  pub parse_hex64-number :
      (w : World)
      → ((j : ℕ) → j < n → IsDigit (digits j))
      → parse_hex64 digits n e w ≡ ok (number digits n) w
  unfolding parse_hex64 ◌>>=◌
  parse_hex64-number w valid =
      parse_hex64_from-number n 0 0 w (omega arith) valid (omega arith)
      ∙ ap (λ x. ok x w) (omega arith)
