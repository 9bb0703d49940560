-- ===== src/Loader/Receive.antt =====
-- The characters of a transfer, one call of `elf_loader_handle_input` for each: the answers and the
-- state that it leaves.
use se_l4cp_poc.Prelude.{
  ℕ, zero, suc, ◌+◌, ◌-◌, ◌≤◌, ◌<◌, ◌≡◌, ◌≢◌, refl, ap, ◌∙◌, List, [], ◌∷◌, length, arith,
  leb-false, le→leb, get_or, ==_iff, ==_false, true, ◌⊎◌, inl, inr, Bool-cases, subst,
}
use se_l4cp_poc.Machine.State.{AllocationState, LoaderState, Env, World}
use se_l4cp_poc.Machine.Run.{ok, Prog, pure, ◌>>=◌}
use se_l4cp_poc.Loader.{put, is_inside, store_byte, advance, handle_file_input, handle_input}

-- The answers to a list of characters.
unfoldable pub feed : List ℕ → Prog (List ℕ)
feed [] = pure []
feed (c ∷ cs) = do answer ← handle_input c; answers ← feed cs; pure (answer ∷ answers)

-- The values, from an index or address on.
unfoldable pub write_all : (ℕ → ℕ) → ℕ → List ℕ → ℕ → ℕ
write_all f i [] = f
write_all f i (v ∷ vs) = write_all (put f i v) (i + 1) vs

-- NULL for all characters but the last.
unfoldable pub answers : ℕ → ℕ → List ℕ
answers zero last = last ∷ []
answers (suc n) last = 0 ∷ answers n last

unfoldable pub zeros : ℕ → List ℕ
zeros zero = []
zeros (suc n) = 0 ∷ zeros n

-- The world with the bytes stored from `elf_current_vaddr` on, and a file begun.
abbrev pub stored : List ℕ → ℕ → World → World
stored bs size w = record w {
  memory = write_all w.memory w.loader.elf_current_vaddr bs;
  loader = record w.loader {
    elf_current_vaddr = w.loader.elf_current_vaddr + length bs;
    elf_size = size;
  };
}

abbrev pub completed : Env → List ℕ → World → World
completed e bs w = record w {
  memory = write_all w.memory w.loader.elf_current_vaddr bs;
  loader = record w.loader { elf_current_vaddr = e.elf_buffer; elf_size = 0 };
}

pub feed_next :
    (c : ℕ) (cs : List ℕ) (e : Env) (w : World) (a : ℕ) (v : World) (later : List ℕ) (u : World)
    → handle_input c e w ≡ ok a v
    → feed cs e v ≡ ok later u
    → feed (c ∷ cs) e w ≡ ok (a ∷ later) u
unfolding feed ◌>>=◌
feed_next c cs e w a v later u first rest = rw (first, rest) refl

module _ (e : Env) where
  file_input :
      (c : ℕ) (w : World) → w.loader.elf_size ≢ 0 → handle_input c e w ≡ handle_file_input c e w
  unfolding handle_input ◌>>=◌
  file_input c w begun = rw (==_false w.loader.elf_size 0 begun) refl

  -- A store at the address changes no static variable.
  abbrev pub Spares : ℕ → Type 0
  Spares addr =
      (is_inside e addr ≡ true)
      ⊎ ((c : ℕ) (s : AllocationState × LoaderState) → e.overrun addr c s ≡ s)

  abbrev put_byte : ℕ → World → World
  put_byte c w = record w { memory = put w.memory w.loader.elf_current_vaddr c }

  byte_stored :
      (c : ℕ) (w : World) → Spares w.loader.elf_current_vaddr → store_byte c e w ≡ put_byte c w
  unfolding store_byte
  byte_stored c w (inl inside) = rw inside refl
  byte_stored c w (inr harmless) = elim (Bool-cases (is_inside e w.loader.elf_current_vaddr)) [
    | inl inside ↦ rw inside refl
    | inr outside ↦ rw (outside, harmless c (w.alloc_state, w.loader)) refl
  ]

  last_byte :
      (c : ℕ) (w : World)
      → Spares w.loader.elf_current_vaddr
      → w.loader.elf_size ≤ w.loader.elf_current_vaddr + 1 - e.elf_buffer
      → handle_file_input c e w ≡ ok e.elf_buffer (completed e (c ∷ []) w)
  unfolding handle_file_input advance write_all
  last_byte c w spares full = rw (byte_stored c w spares, le→leb _ _ full) refl

  inner_byte :
      (c : ℕ) (w : World)
      → Spares w.loader.elf_current_vaddr
      → w.loader.elf_current_vaddr + 1 - e.elf_buffer < w.loader.elf_size
      → handle_file_input c e w ≡ ok 0 (stored (c ∷ []) w.loader.elf_size w)
  unfolding handle_file_input advance write_all
  inner_byte c w spares open_ = rw (byte_stored c w spares, leb-false _ _ open_) refl

  -- `n` stores from an address on.
  abbrev pub AllSpare : (addr n : ℕ) → Type 0
  AllSpare addr n = (i : ℕ) → i < n → Spares (addr + i)

  first-Spares : (addr n : ℕ) → AllSpare addr (suc n) → Spares addr
  first-Spares addr n h = subst Spares (omega arith) (h 0 (omega arith))

  later-AllSpare : (addr n : ℕ) → AllSpare addr (suc n) → AllSpare (addr + 1) n
  later-AllSpare addr n h i lt = subst Spares (omega arith) (h (i + 1) (omega (arith, lt)))

  pub feed_bytes :
      (b : ℕ) (bs : List ℕ) (w : World)
      → AllSpare w.loader.elf_current_vaddr (length (b ∷ bs))
      → w.loader.elf_size ≢ 0
      → w.loader.elf_current_vaddr + length (b ∷ bs) ≡ e.elf_buffer + w.loader.elf_size
      → feed (b ∷ bs) e w ≡ ok (answers (length bs) e.elf_buffer) (completed e (b ∷ bs) w)
  unfolding answers write_all
  feed_bytes b [] w spare begun place =
      feed_next b [] e w e.elf_buffer (completed e (b ∷ []) w) [] _
        (file_input b w begun ∙ last_byte b w (first-Spares _ _ spare) (omega arith))
        (unfold feed pure in refl)
  feed_bytes b (c ∷ cs) w spare begun place =
      feed_next b (c ∷ cs) e w 0 (stored (b ∷ []) w.loader.elf_size w) _ _
        (file_input b w begun ∙ inner_byte b w (first-Spares _ _ spare) (omega arith))
        (feed_bytes c cs (stored (b ∷ []) w.loader.elf_size w) (later-AllSpare _ _ spare) begun
          (omega arith))

  -- Bytes short of the size: they are stored wherever `elf_current_vaddr` has come to.
  pub feed_partly :
      (bs : List ℕ) (w : World)
      → AllSpare w.loader.elf_current_vaddr (length bs)
      → w.loader.elf_current_vaddr + length bs < e.elf_buffer + w.loader.elf_size
      → e.elf_buffer ≤ w.loader.elf_current_vaddr
      → w.loader.elf_size ≢ 0
      → feed bs e w ≡ ok (zeros (length bs)) (stored bs w.loader.elf_size w)
  unfolding zeros write_all
  feed_partly [] w spare place above begun =
      unfold feed pure in
      ap (λ n. ok [] (record w { loader = record w.loader { elf_current_vaddr = n } }))
        (omega arith)
  feed_partly (b ∷ bs) w spare place above begun =
      feed_next b bs e w 0 (stored (b ∷ []) w.loader.elf_size w) _ _
        (file_input b w begun ∙ inner_byte b w (first-Spares _ _ spare) (omega arith))
        (feed_partly bs (stored (b ∷ []) w.loader.elf_size w) (later-AllSpare _ _ spare)
            (omega arith) (omega arith) begun
          ∙ ap
              (λ n. ok (zeros (length bs)) (record w {
                memory = write_all w.memory w.loader.elf_current_vaddr (b ∷ bs);
                loader = record w.loader { elf_current_vaddr = n };
              }))
              (omega arith))

-- What is written is found again.
pub write_all_after :
    (f : ℕ → ℕ) (i : ℕ) (vs : List ℕ) (j : ℕ) → i + length vs ≤ j → write_all f i vs j ≡ f j
unfolding write_all
write_all_after f i [] j after = refl
write_all_after f i (v ∷ vs) j after =
    write_all_after (put f i v) (i + 1) vs j (omega arith) ∙ rw (==_false j i (omega arith)) refl

pub write_all_before : (f : ℕ → ℕ) (i : ℕ) (vs : List ℕ) (j : ℕ) → j < i → write_all f i vs j ≡ f j
unfolding write_all
write_all_before f i [] j before = refl
write_all_before f i (v ∷ vs) j before =
    write_all_before (put f i v) (i + 1) vs j (omega arith) ∙ rw (==_false j i (omega arith)) refl

pub write_all_at :
    (f : ℕ → ℕ) (i : ℕ) (vs : List ℕ) (k d : ℕ)
    → k < length vs
    → write_all f i vs (i + k) ≡ get_or vs k d
unfolding write_all
write_all_at f i [] k d inside = absurd (omega arith)
write_all_at f i (v ∷ vs) zero d inside =
    write_all_before (put f i v) (i + 1) vs (i + 0) (omega arith)
    ∙ rw ((==_iff (i + 0) i).1 (omega arith)) refl
write_all_at f i (v ∷ vs) (suc k) d inside =
    ap (write_all (put f i v) (i + 1) vs) (omega arith)
    ∙ write_all_at (put f i v) (i + 1) vs k d (omega arith)
