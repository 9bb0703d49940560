-- ===== src/Loader/Transfer.antt =====
-- Whole transfers: a size in hexadecimal digits, a line feed and the bytes of the file.
use se_l4cp_poc.Prelude.{
  ℕ, ◌+◌, ◌≤◌, ◌<◌, ◌≡◌, ◌⊎◌, inl, inr, refl, ap, ◌∙◌, List, [], ◌∷◌, ◌++◌, length, get_or, arith,
  ltb-false, lt→ltb, le→leb, ltb→lt, ltb_false→le, ltb, Bool-cases, true, subst, sym,
}
use se_l4cp_poc.Machine.State.{AllocationState, LoaderState, Env, World, printed, printed_hex64}
use se_l4cp_poc.Machine.Run.{Run, ok, fail, crash, out_of_fuel, and_then, ◌>>=◌}
use se_l4cp_poc.Loader.{elf_buffer_size, is_inside, handle_input, parse_hex64}
use se_l4cp_poc.Loader.Hex.{number, parse_hex64-number}
use se_l4cp_poc.Loader.Receive.{
  feed, feed_next, write_all, write_all_at, write_all_before, write_all_after, zeros, answers,
  stored, completed, feed_bytes, feed_partly, Spares, AllSpare,
}
use se_l4cp_poc.Loader.Size.{
  horner, AreDigits, number_written, digits_written, noted, sized, feed_digits, size_read,
}

-- Waiting for a size, as at the start.
pub record IsIdle (e : Env) (w : World) : Type 0 where
  pub no_size : w.loader.elf_size ≡ 0
  pub no_digit : w.loader.size_buffer_idx ≡ 0
  pub at_start : w.loader.elf_current_vaddr ≡ e.elf_buffer

module _ (e : Env) (ys : List ℕ) where
  -- The answers to `ys` behind those of a run.
  abbrev joined : Run (List ℕ) → Run (List ℕ)
  joined r = and_then r λ l v. and_then (feed ys e v) λ m u. ok (l ++ m) u

  abbrev behind : ℕ → Run (List ℕ) → Run (List ℕ)
  behind a r = and_then r λ l v. ok (a ∷ l) v

  behind-joined : (a : ℕ) (r : Run (List ℕ)) → behind a (joined r) ≡ joined (behind a r)
  behind-joined a (ok l v) = joined_once (feed ys e v)
    where
      joined_once :
          (r : Run (List ℕ))
          → behind a (and_then r λ m u. ok (l ++ m) u) ≡ and_then r λ m u. ok (a ∷ l ++ m) u
      joined_once (ok m u) = refl
      joined_once (fail u) = refl
      joined_once (crash n u) = refl
      joined_once (out_of_fuel u) = refl
  behind-joined a (fail v) = refl
  behind-joined a (crash n v) = refl
  behind-joined a (out_of_fuel v) = refl

  feed-append : (xs : List ℕ) (w : World) → feed (xs ++ ys) e w ≡ joined (feed xs e w)
  unfolding feed ◌>>=◌
  feed-append [] w = alone (feed ys e w)
    where
      alone : (r : Run (List ℕ)) → r ≡ and_then r λ m u. ok m u
      alone (ok m u) = refl
      alone (fail u) = refl
      alone (crash n u) = refl
      alone (out_of_fuel u) = refl
  feed-append (x ∷ xs) w = first (feed-append xs) (handle_input x e w)
    where
      first :
          ((v : World) → feed (xs ++ ys) e v ≡ joined (feed xs e v))
          → (r : Run ℕ)
          → and_then r (λ a v. behind a (feed (xs ++ ys) e v))
            ≡ joined (and_then r λ a v. behind a (feed xs e v))
      first later (ok a v) = ap (behind a) (later v) ∙ behind-joined a (feed xs e v)
      first later (fail v) = refl
      first later (crash n v) = refl
      first later (out_of_fuel v) = refl

-- The world after a transfer, and that in the middle of one.
unfoldable pub delivered : Env → (ds bs : List ℕ) → World → World
delivered e ds bs w = completed e bs (sized (horner 0 ds) (noted ds w))

unfoldable pub delivering : (ds bs : List ℕ) → World → World
delivering ds bs w = stored bs (horner 0 ds) (sized (horner 0 ds) (noted ds w))

module _ (e : Env) (ds : List ℕ) (w : World) (idle : IsIdle e w) (valid : AreDigits ds)
    (short : length ds ≤ 8) where
  size_parsed :
      parse_hex64 (noted ds w).loader.size_buffer (noted ds w).loader.size_buffer_idx e (noted ds w)
      ≡ ok (horner 0 ds) (noted ds w)
  size_parsed =
      parse_hex64-number e _ (w.loader.size_buffer_idx + length ds) (omega (arith, idle.no_digit))
        (noted ds w)
        (digits_written w.loader.size_buffer w.loader.size_buffer_idx ds valid
          (λ j lt. absurd (omega (arith, idle.no_digit))))
      ∙ ap (λ n. ok n (noted ds w))
          (number_written w.loader.size_buffer w.loader.size_buffer_idx ds
            ∙ ap (λ n. horner n ds)
                (ap (number w.loader.size_buffer) idle.no_digit ∙ (unfold number in refl)))

  -- The answers to the size and to what follows it.
  feed-sized :
      (bs later : List ℕ) (v : World)
      → feed bs e (sized (horner 0 ds) (noted ds w)) ≡ ok later v
      → feed (ds ++ b'\n' ∷ bs) e w ≡ ok (zeros (length ds) ++ 0 ∷ later) v
  feed-sized bs later v rest =
      feed-append e (b'\n' ∷ bs) ds w
      ∙ rw
          (
            feed_digits e ds w idle.no_size valid (omega (arith, idle.no_digit)),
            feed_next b'\n' bs e (noted ds w) 0 (sized (horner 0 ds) (noted ds w)) later v
                (size_read e (horner 0 ds) (noted ds w) size_parsed idle.no_size) rest,
          )
          refl

  spared_from_start :
      (bs : List ℕ)
      → AllSpare e e.elf_buffer (length bs)
      → AllSpare e w.loader.elf_current_vaddr (length bs)
  spared_from_start bs h i lt = subst (λ a. Spares e (a + i)) (sym idle.at_start) (h i lt)

  within : (i : ℕ) → i < elf_buffer_size → is_inside e (e.elf_buffer + i) ≡ true
  within i lt =
      rw (le→leb e.elf_buffer (e.elf_buffer + i) (omega arith))
        (lt→ltb (e.elf_buffer + i) (e.elf_buffer + elf_buffer_size) (omega (arith, lt)))

  inside_buffer :
      (bs : List ℕ)
      → length bs ≤ elf_buffer_size
      → AllSpare e w.loader.elf_current_vaddr (length bs)
  inside_buffer bs fits = spared_from_start bs (λ i lt. inl (within i (omega (arith, lt, fits))))

  module _ (b : ℕ) (bs : List ℕ) (exact : horner 0 ds ≡ length (b ∷ bs))
      (fits : length (b ∷ bs) ≤ elf_buffer_size) where
    -- From the idle state, with a size of at most eight hexadecimal digits that is the length of
    -- the file, which is not empty and fits the buffer: every character is answered with NULL but
    -- the last one of the file, which is answered with the buffer. Then the loader is idle again,
    -- the bytes of the file are in the buffer in order, no other memory has changed and nothing was
    -- printed.
    pub handle_input-receives :
        (feed (ds ++ b'\n' ∷ b ∷ bs) e w
          ≡ ok
              (zeros (length ds) ++ 0 ∷ answers (length bs) e.elf_buffer)
              (delivered e ds (b ∷ bs) w))
        × IsIdle e (delivered e ds (b ∷ bs) w)
        × ((i : ℕ)
            → i < length (b ∷ bs)
            → (delivered e ds (b ∷ bs) w).memory (e.elf_buffer + i) ≡ get_or (b ∷ bs) i 0)
        × ((a : ℕ)
            → (a < e.elf_buffer) ⊎ (e.elf_buffer + length (b ∷ bs) ≤ a)
            → (delivered e ds (b ∷ bs) w).memory a ≡ w.memory a)
        × ((delivered e ds (b ∷ bs) w).trace ≡ w.trace)
    unfolding delivered sized
    handle_input-receives = (
      feed-sized (b ∷ bs) _ _ (
          feed_bytes e b bs _ (inside_buffer (b ∷ bs) fits) (λ p. absurd (omega (arith, exact)))
            (omega (arith, idle.at_start, exact))),
      record { no_size = refl; no_digit = refl; at_start = refl },
      (λ i lt.
          ap (write_all w.memory w.loader.elf_current_vaddr (b ∷ bs)) (omega (arith, idle.at_start))
          ∙ write_all_at w.memory w.loader.elf_current_vaddr (b ∷ bs) i 0 lt),
      (λ a outside. untouched w.memory w.loader.elf_current_vaddr a (outside_here a outside)),
      quiet,
    )
      where
        outside_here :
            (a : ℕ)
            → (a < e.elf_buffer) ⊎ (e.elf_buffer + length (b ∷ bs) ≤ a)
            → (a < w.loader.elf_current_vaddr) ⊎ (w.loader.elf_current_vaddr + length (b ∷ bs) ≤ a)
        outside_here a (inl before) = inl (omega (arith, idle.at_start))
        outside_here a (inr after) = inr (omega (arith, idle.at_start))

        untouched :
            (m : ℕ → ℕ) (i a : ℕ)
            → (a < i) ⊎ (i + length (b ∷ bs) ≤ a)
            → write_all m i (b ∷ bs) a ≡ m a
        untouched m i a (inl before) = write_all_before m i (b ∷ bs) a before
        untouched m i a (inr after) = write_all_after m i (b ∷ bs) a after

        quiet : (sized (horner 0 ds) (noted ds w)).trace ≡ w.trace
        quiet = rw (exact, ltb-false elf_buffer_size (length (b ∷ bs)) fits) refl

  -- From the idle state, with a size of at most eight hexadecimal digits that is larger than the
  -- buffer: although the size is refused with a message, the bytes that follow, as long as they
  -- are fewer than the size says, are stored one behind the other from the start of the buffer
  -- on, also past its end, where the stores behind it hit no static variable; and the next one
  -- goes to the address behind them.
  pub handle_input-overflows :
      (bs : List ℕ)
      → elf_buffer_size < horner 0 ds
      → length bs < horner 0 ds
      → ((i c : ℕ) (s : AllocationState × LoaderState)
          → elf_buffer_size ≤ i
          → i < length bs
          → e.overrun (e.elf_buffer + i) c s ≡ s)
      → (feed (ds ++ b'\n' ∷ bs) e w
          ≡ ok (zeros (length ds) ++ 0 ∷ zeros (length bs)) (delivering ds bs w))
        × ((i : ℕ) → i < length bs → (delivering ds bs w).memory (e.elf_buffer + i) ≡ get_or bs i 0)
        × ((delivering ds bs w).trace
            ≡ printed " bytes\n"
              ∷ printed_hex64 elf_buffer_size
              ∷ printed "elf_loader: cannot read ELF files larger than "
              ∷ w.trace)
        × ((delivering ds bs w).loader.elf_current_vaddr ≡ e.elf_buffer + length bs)
        × ((delivering ds bs w).loader.elf_size ≡ horner 0 ds)
  unfolding delivering sized
  handle_input-overflows bs large part harmless = (
    feed-sized bs _ _ (
        feed_partly e bs _ (spared_from_start bs spare) (omega (arith, idle.at_start))
          (omega (arith, idle.at_start)) (λ p. absurd (omega arith))),
    (λ i lt.
        ap (write_all w.memory w.loader.elf_current_vaddr bs) (omega (arith, idle.at_start))
        ∙ write_all_at w.memory w.loader.elf_current_vaddr bs i 0 lt),
    rw (lt→ltb elf_buffer_size (horner 0 ds) large) refl,
    omega (arith, idle.at_start),
    refl,
  )
    where
      spare : AllSpare e e.elf_buffer (length bs)
      spare i lt = elim (Bool-cases (ltb i elf_buffer_size)) [
        | inl inside ↦ inl (within i (ltb→lt _ _ inside))
        | inr outside ↦ inr (λ c s. harmless i c s (ltb_false→le _ _ outside) lt)
      ]
