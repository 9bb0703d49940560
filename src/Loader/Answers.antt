-- ===== src/Loader/Answers.antt =====
-- The answers of `elf_loader_handle_input` to a list of characters, taken apart again.
use se_l4cp_poc.Prelude.{ℕ, zero, suc, ◌+◌, ◌≡◌, ◌≢◌, refl, ap, ◌∙◌, List, [], ◌∷◌, ◌++◌, arith}
use se_l4cp_poc.Machine.State.{World, Env}
use se_l4cp_poc.Machine.Run.{Run, ok, fail, crash, out_of_fuel, final, and_then, pure, ◌>>=◌}
use se_l4cp_poc.Loader.{handle_input}
use se_l4cp_poc.Loader.Receive.{feed, zeros, answers}

-- The answers to a size, a line feed and the bytes of the file.
pub answers-zeros : (m n a : ℕ) → zeros m ++ 0 ∷ answers n a ≡ answers (m + suc n) a
unfolding zeros answers
answers-zeros zero n a = let one : suc n ≡ 0 + suc n = omega arith in ap (λ k. answers k a) one
answers-zeros (suc m) n a =
    let one_more : suc (m + suc n) ≡ suc m + suc n = omega arith in
    ap (λ l. 0 ∷ l) (answers-zeros m n a) ∙ ap (λ k. answers k a) one_more

module _ (e : Env) where
  -- The first answer of `feed`, and the rest.
  first_answer :
      (r : Run ℕ) (k : World → Run (List ℕ)) (a : ℕ) (later : List ℕ) (y : World)
      → and_then r (λ a' v. and_then (k v) (λ l u. ok (a' ∷ l) u)) ≡ ok (a ∷ later) y
      → (x1 : World) × (r ≡ ok a x1) × (k x1 ≡ ok later y)
  first_answer (ok a' v) k a later y h = by_rest (k v) refl h
    where
      by_rest :
          (s : Run (List ℕ))
          → k v ≡ s
          → and_then s (λ l u. ok (a' ∷ l) u) ≡ ok (a ∷ later) y
          → (x1 : World) × (ok a' v ≡ ok a x1) × (k x1 ≡ ok later y)
      by_rest (ok l u) is h = (v, cc, is ∙ cc)
      by_rest (fail u) is h = ground arith
      by_rest (crash n u) is h = ground arith
      by_rest (out_of_fuel u) is h = ground arith
  first_answer (fail v) k a later y h = ground arith
  first_answer (crash n v) k a later y h = ground arith
  first_answer (out_of_fuel v) k a later y h = ground arith

  pub no_first : (a : ℕ) (later : List ℕ) (x y : World) → feed [] e x ≢ ok (a ∷ later) y
  unfolding feed pure
  no_first a later x y h = ground arith

  pub feed_first :
      (c a : ℕ) (cs later : List ℕ) (x y : World)
      → feed (c ∷ cs) e x ≡ ok (a ∷ later) y
      → (x1 : World) × (handle_input c e x ≡ ok a x1) × (feed cs e x1 ≡ ok later y)
  unfolding feed pure ◌>>=◌
  feed_first c a cs later x y h = first_answer (handle_input c e x) (feed cs e) a later y h

  no_answer :
      (r : Run ℕ) (k : World → Run (List ℕ)) (y : World)
      → and_then r (λ a v. and_then (k v) (λ l u. ok (a ∷ l) u)) ≢ ok [] y
  no_answer (ok a v) k y h = by_rest (k v) h
    where
      by_rest : (s : Run (List ℕ)) → and_then s (λ l u. ok (a ∷ l) u) ≢ ok [] y
      by_rest (ok l u) h = ground arith
      by_rest (fail u) h = ground arith
      by_rest (crash n u) h = ground arith
      by_rest (out_of_fuel u) h = ground arith
  no_answer (fail v) k y h = ground arith
  no_answer (crash n v) k y h = ground arith
  no_answer (out_of_fuel v) k y h = ground arith

  pub nothing_more : (cs : List ℕ) (x y : World) → feed cs e x ≡ ok [] y → x ≡ y
  unfolding feed pure ◌>>=◌
  nothing_more [] x y h = ap final h
  nothing_more (c ∷ cs) x y h = absurd (no_answer (handle_input c e x) (feed cs e) y h)
