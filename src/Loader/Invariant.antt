-- ===== src/Loader/Invariant.antt =====
-- What every character keeps of the loader's variables.
use se_l4cp_poc.Prelude.{
  ℕ, zero, suc, ◌+◌, ◌-◌, ◌≤◌, ◌<◌, ◌≡◌, ◌≢◌, ◌⊎◌, refl, inl, inr, Option, none, some, arith, leb,
  leb_false→lt, le→leb, lt→ltb, ltb, ◌==◌, ==_iff, ==_false, ap, if◌then◌else◌, Bool-cases,
}
use se_l4cp_poc.Machine.State.{Env, World, LoaderState}
use se_l4cp_poc.Machine.Run.{
  Run, ok, fail, crash, out_of_fuel, final, and_then, pure, ◌>>=◌, ◌>>◌, dbg_puts, dbg_puthex64,
}
use se_l4cp_poc.Loader.{
  elf_buffer_size, digit_value, parse_hex64_from, parse_hex64, finish_size, handle_size_input, put,
  store_byte, advance, handle_file_input, handle_input,
}
use se_l4cp_poc.Loader.Hex.{digit_step, invalid_step}

-- `size_buffer_idx` is not past the end of `size_buffer`, and `elf_current_vaddr` is at the start
-- of the buffer until there is a size, and short of the size then.
pub record IsReceiving (e : Env) (l : LoaderState) : Type 0 where
  pub digits : l.size_buffer_idx ≤ 16
  pub waiting : l.elf_size ≡ 0 → l.elf_current_vaddr ≡ e.elf_buffer
  pub above : e.elf_buffer ≤ l.elf_current_vaddr
  pub below : l.elf_size ≢ 0 → l.elf_current_vaddr < e.elf_buffer + l.elf_size

-- A run that returns, with the loader's variables, the pools and the memory as they were.
abbrev Reads : World → Run ℕ → Type 0
Reads w (ok n v) = (v.loader ≡ w.loader) × (v.alloc_state ≡ w.alloc_state) × (v.memory ≡ w.memory)
Reads w _ = ⊥

Option-cases : (o : Option ℕ) → (o ≡ none) ⊎ ((v : ℕ) × (o ≡ some v))
Option-cases none = inl refl
Option-cases (some v) = inr (v, refl)

module _ (e : Env) where
  reads :
      (i : ℕ) (shift digits : ℕ → ℕ) (n r : ℕ) (w : World)
      → Reads w (parse_hex64_from i shift digits n r e w)
  reads zero shift digits n r w = unfold parse_hex64_from pure in (refl, refl, refl)
  reads (suc i) shift digits n r w = elim (Option-cases (digit_value (digits i))) [
    | inl invalid ↦
        rw (invalid_step shift digits n i r 0 invalid) (unfold ◌>>=◌ in (refl, refl, refl))
    | inr (v, valid) ↦ rw (digit_step shift digits n i r v valid) (reads i shift digits n _ w)
  ]

  size_read : (digits : ℕ → ℕ) (n : ℕ) (w : World) → Reads w (parse_hex64 digits n e w)
  unfolding parse_hex64 ◌>>=◌
  size_read digits n w = reads n _ digits n 0 w

  -- After the character `c`: the variables are in order, the size fits the buffer unless it is one
  -- that `c` has ended, and the pools and the memory outside the buffer are as before.
  pub record Receives (c : ℕ) (w v : World) : Type 0 where
    pub receiving : IsReceiving e v.loader
    pub size : (v.loader.elf_size ≤ elf_buffer_size) ⊎ ((c ≡ b'\n') × (w.loader.elf_size ≡ 0))
    pub alloc_state : v.alloc_state ≡ w.alloc_state
    pub memory :
        (a : ℕ)
        → (a < e.elf_buffer) ⊎ (e.elf_buffer + elf_buffer_size ≤ a)
        → v.memory a ≡ w.memory a

  -- The end of the size, whatever number is read.
  sized :
      (c : ℕ) (w : World) (r : Run ℕ)
      → c ≡ b'\n'
      → IsReceiving e w.loader
      → w.loader.elf_size ≡ 0
      → Reads w r
      → Receives c w (
          final {A = ℕ} (
            and_then r λ size v.
              (if ltb elf_buffer_size size
                  then (do
                    dbg_puts "elf_loader: cannot read ELF files larger than "
                    dbg_puthex64 elf_buffer_size
                    dbg_puts " bytes\n"
                    pure 0)
                  else pure 0)
                e
                (record v { loader = record v.loader { elf_size = size; size_buffer_idx = 0 } })))
  unfolding ◌>>=◌
  sized c w (ok size v) ended h idle same = elim (Bool-cases (ltb elf_buffer_size size)) [
    | inl large ↦ rw large (record {
      receiving = now;
      size = inr (ended, idle);
      alloc_state = same.1;
      memory = λ a outside. ap (λ m. m a) same.2;
    })
    | inr fits ↦ rw fits (record {
      receiving = now;
      size = inr (ended, idle);
      alloc_state = same.1;
      memory = λ a outside. ap (λ m. m a) same.2;
    })
  ]
    where
      now : IsReceiving e (record v.loader { elf_size = size; size_buffer_idx = 0 })
      now = rw same.0 (record {
        digits = omega arith;
        waiting = λ _. h.waiting idle;
        above = h.above;
        below = λ begun. omega (arith, h.waiting idle, begun);
      })
  sized c w (fail v) ended h idle same = absurd same
  sized c w (crash n v) ended h idle same = absurd same
  sized c w (out_of_fuel v) ended h idle same = absurd same

  size_kept :
      (c : ℕ) (w : World)
      → w.loader.elf_size ≡ 0
      → IsReceiving e w.loader
      → Receives c w (final (handle_size_input c e w))
  unfolding handle_size_input finish_size ◌>>=◌
  size_kept c w idle h = elim (Bool-cases (c == b'\n')) [
    | inl is ↦ rw is (
        sized c w (parse_hex64 w.loader.size_buffer w.loader.size_buffer_idx e w)
          ((==_iff _ _).0 is) h idle (size_read _ _ w))
    | inr other ↦ elim (Bool-cases (leb 16 w.loader.size_buffer_idx)) [
      | inl full ↦
          rw (other, full)
            (record {
              receiving = h;
              size = inl (omega (arith, idle));
              alloc_state = refl;
              memory = λ a outside. refl;
            })
      | inr room ↦
          let lt : w.loader.size_buffer_idx < 16 = leb_false→lt _ _ room in
          rw (other, room)
            (record {
              receiving = record {
                digits = omega (arith, lt);
                waiting = h.waiting;
                above = h.above;
                below = h.below;
              };
              size = inl (omega (arith, idle));
              alloc_state = refl;
              memory = λ a outside. refl;
            })
    ]
  ]

  file_kept :
      (c : ℕ) (w : World)
      → w.loader.elf_size ≢ 0
      → w.loader.elf_size ≤ elf_buffer_size
      → IsReceiving e w.loader
      → Receives c w (final (handle_file_input c e w))
  unfolding handle_file_input store_byte advance
  file_kept c w begun fits h =
      let end : w.loader.elf_current_vaddr < e.elf_buffer + w.loader.elf_size = h.below begun in
      let above : e.elf_buffer ≤ w.loader.elf_current_vaddr = h.above in
      let elsewhere : (a : ℕ)
          → (a < e.elf_buffer) ⊎ (e.elf_buffer + elf_buffer_size ≤ a)
          → put w.memory w.loader.elf_current_vaddr c a ≡ w.memory a =
        λ a outside.
          rw
            (==_false a w.loader.elf_current_vaddr (λ p. elim outside [
              | inl before ↦ omega (arith, before, p, above)
              | inr behind ↦ omega (arith, behind, p, end, fits)
            ]))
            refl in
      rw (le→leb e.elf_buffer w.loader.elf_current_vaddr above) (
        rw
          (lt→ltb w.loader.elf_current_vaddr (e.elf_buffer + elf_buffer_size)
            (omega (arith, end, fits)))
          (elim (Bool-cases
            (leb w.loader.elf_size (w.loader.elf_current_vaddr + 1 - e.elf_buffer))) [
              | inl full ↦ rw full (record {
                receiving = record {
                  digits = h.digits;
                  waiting = λ _. refl;
                  above = omega arith;
                  below = λ p. absurd (p refl);
                };
                size = inl (omega arith);
                alloc_state = refl;
                memory = elsewhere;
              })
              | inr open_ ↦
                  let lt : w.loader.elf_current_vaddr + 1 - e.elf_buffer < w.loader.elf_size =
                    leb_false→lt _ _ open_ in
                  rw open_ (record {
                    receiving = record {
                      digits = h.digits;
                      waiting = λ p. absurd (begun p);
                      above = omega (arith, above);
                      below = λ _. omega (arith, above, lt);
                    };
                    size = inl fits;
                    alloc_state = refl;
                    memory = elsewhere;
                  })
            ]))

  -- If the loader's variables are in order and the size fits the buffer, then, whatever the
  -- character and the outcome, `elf_loader_handle_input` stores nothing outside the buffer and takes
  -- nothing from the pools, and the variables are in order: `size_buffer_idx` is at most 16,
  -- `elf_current_vaddr` is the start of the buffer as long as there is no size, and otherwise not
  -- below the buffer and short of as many bytes as the size says. The size fits the buffer again
  -- unless the character was the line feed that ended it.
  pub handle_input-Receives :
      (c : ℕ) (w : World)
      → IsReceiving e w.loader
      → w.loader.elf_size ≤ elf_buffer_size
      → Receives c w (final (handle_input c e w))
  unfolding handle_input ◌>>=◌
  handle_input-Receives c w h fits = elim (Bool-cases (w.loader.elf_size == 0)) [
    | inl idle ↦ rw idle (size_kept c w ((==_iff _ _).0 idle) h)
    | inr begun ↦ rw begun (file_kept c w (ground arith) fits h)
  ]
