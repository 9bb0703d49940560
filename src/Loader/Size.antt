-- ===== src/Loader/Size.antt =====
-- The characters of a size, up to the line feed that ends it.
use native.Mathlib.Numerals.{add-one}
use se_l4cp_poc.Prelude.{
  ℕ, zero, suc, ◌+◌, ◌*◌, ◌≤◌, ◌<◌, ◌≡◌, refl, ap, ◌∙◌, false, List, [], ◌∷◌, length, arith,
  leb-false, ltb, ◌==◌, ==_false, ==_iff, ==_refl, if◌then◌else◌, inl, inr, Bool-cases,
}
use se_l4cp_poc.Machine.State.{Env, World, printed, printed_hex64}
use se_l4cp_poc.Machine.Run.{ok, pure, ◌>>=◌}
use se_l4cp_poc.Loader.{
  elf_buffer_size, digit_value, put, parse_hex64, finish_size, handle_size_input, handle_input,
}
use se_l4cp_poc.Loader.Hex.{value, IsDigit, number}
use se_l4cp_poc.Loader.Receive.{feed, feed_next, write_all, zeros}

-- The number that a list of digits stands for, after digits that stand for `acc`.
unfoldable pub horner : ℕ → List ℕ → ℕ
horner acc [] = acc
horner acc (d ∷ ds) = horner (acc * 16 + value d) ds

unfoldable pub AreDigits : List ℕ → Type 0
AreDigits [] = Unit {0}
AreDigits (d ∷ ds) = IsDigit d × AreDigits ds

number-put : (f : ℕ → ℕ) (i v n : ℕ) → n ≤ i → number (put f i v) n ≡ number f n
unfolding number
number-put f i v zero h = refl
number-put f i v (suc n) h = rw (number-put f i v n (omega arith), ==_false n i (omega arith)) refl

pub number_written :
    (f : ℕ → ℕ) (i : ℕ) (ds : List ℕ)
    → number (write_all f i ds) (i + length ds) ≡ horner (number f i) ds
unfolding write_all horner
number_written f i [] = ap (number f) (omega arith)
number_written f i (d ∷ ds) =
    ap (number (write_all (put f i d) (i + 1) ds)) (omega arith)
    ∙ number_written (put f i d) (i + 1) ds
    ∙ ap (λ acc. horner acc ds)
        (ap (number (put f i d)) (add-one i)
          ∙ (unfold number in rw (number-put f i d i (omega arith), ==_refl i) refl))

pub digits_written :
    (f : ℕ → ℕ) (i : ℕ) (ds : List ℕ)
    → AreDigits ds
    → ((j : ℕ) → j < i → IsDigit (f j))
    → (j : ℕ) → j < i + length ds
    → IsDigit (write_all f i ds j)
unfolding write_all AreDigits
digits_written f i [] valid before j lt = before j (omega arith)
digits_written f i (d ∷ ds) valid before j lt =
    digits_written (put f i d) (i + 1) ds valid.1 extended j (omega arith)
  where
    extended : (k : ℕ) → k < i + 1 → IsDigit (put f i d k)
    extended k k_lt = elim (Bool-cases (k == i)) [
      | inl same ↦ rw same valid.0
      | inr other ↦ rw other (before k (ground arith))
    ]

digit_not_newline : (d : ℕ) → IsDigit d → (d == b'\n') ≡ false
digit_not_newline d h = unfold digit_value in ground arith

-- The world with the characters in `size_buffer`.
abbrev pub noted : List ℕ → World → World
noted ds w = record w {
  loader = record w.loader {
    size_buffer = write_all w.loader.size_buffer w.loader.size_buffer_idx ds;
    size_buffer_idx = w.loader.size_buffer_idx + length ds;
  };
}

-- The world with a size, and with the messages on one that is too large.
unfoldable pub sized : ℕ → World → World
sized size w = record w {
  trace =
      if ltb elf_buffer_size size
      then printed " bytes\n"
        ∷ printed_hex64 elf_buffer_size
        ∷ printed "elf_loader: cannot read ELF files larger than "
        ∷ w.trace
      else w.trace;
  loader = record w.loader { elf_size = size; size_buffer_idx = 0 };
}

module _ (e : Env) where
  size_input :
      (c : ℕ) (w : World) → w.loader.elf_size ≡ 0 → handle_input c e w ≡ handle_size_input c e w
  unfolding handle_input ◌>>=◌
  size_input c w idle = rw ((==_iff w.loader.elf_size 0).1 idle) refl

  digit_noted :
      (d : ℕ) (w : World)
      → IsDigit d
      → w.loader.size_buffer_idx < 16
      → handle_size_input d e w ≡ ok 0 (noted (d ∷ []) w)
  unfolding handle_size_input ◌>>=◌ write_all
  digit_noted d w valid room =
      rw (digit_not_newline d valid, leb-false 16 w.loader.size_buffer_idx room)
        (ap
          (λ n. ok 0 (record w {
            loader = record w.loader {
              size_buffer = put w.loader.size_buffer w.loader.size_buffer_idx d;
              size_buffer_idx = n;
            };
          }))
          (omega arith))

  pub feed_digits :
      (ds : List ℕ) (w : World)
      → w.loader.elf_size ≡ 0
      → AreDigits ds
      → w.loader.size_buffer_idx + length ds ≤ 16
      → feed ds e w ≡ ok (zeros (length ds)) (noted ds w)
  unfolding zeros write_all AreDigits
  feed_digits [] w idle valid room =
      unfold feed pure in
      ap (λ n. ok [] (record w { loader = record w.loader { size_buffer_idx = n } })) (omega arith)
  feed_digits (d ∷ ds) w idle valid room =
      feed_next d ds e w 0 (noted (d ∷ []) w) _ _
        (size_input d w idle ∙ digit_noted d w valid.0 (omega arith))
        (feed_digits ds (noted (d ∷ []) w) idle valid.1 (omega arith)
          ∙ ap
              (λ n. ok (zeros (length ds)) (record w {
                loader = record w.loader {
                  size_buffer = write_all w.loader.size_buffer w.loader.size_buffer_idx (d ∷ ds);
                  size_buffer_idx = n;
                };
              }))
              (omega arith))

  pub size_read :
      (size : ℕ) (w : World)
      → parse_hex64 w.loader.size_buffer w.loader.size_buffer_idx e w ≡ ok size w
      → w.loader.elf_size ≡ 0
      → handle_input b'\n' e w ≡ ok 0 (sized size w)
  unfolding sized
  size_read size w parsed idle =
      size_input b'\n' w idle
      ∙ (unfold handle_size_input finish_size ◌>>=◌ in
          elim (Bool-cases (ltb elf_buffer_size size)) [
            | inl large ↦ rw (parsed, large) refl
            | inr fits ↦ rw (parsed, fits) refl
          ])
