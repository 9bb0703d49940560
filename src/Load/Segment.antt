-- ===== src/Load/Segment.antt =====
-- The loop that writes a segment, against the segment's image.
use se_l4cp_poc.Prelude.{
  ℕ, zero, suc, ◌+◌, ◌-◌, ◌%◌, ◌^◌, ◌≤◌, ◌<◌, ◌≡◌, refl, ◌∙◌, inl, inr, true, false, ◌∷◌, arith,
  ltb, ltb→lt, lt→ltb, ltb-false, ltb_false→le, ◌==◌, ==_iff, Bool-cases,
}
use se_l4cp_poc.Prelude.Words.{u64}
use se_l4cp_poc.Machine.State.{Event, stored8, stored32, World, Env}
use se_l4cp_poc.Machine.Run.{Run, ok, fail, crash, out_of_fuel, final, and_then, pure, ◌>>=◌}
use se_l4cp_poc.Machine.Evolves.{IsPlain}
use se_l4cp_poc.Machine.Yields.{Result}
use se_l4cp_poc.Machine.Halts.{HasEnded}
use se_l4cp_poc.Load.{Cursor, write_elf_data, ensure_page_is_allocated, write_step, write_bytes}
use se_l4cp_poc.Load.Steps.{Goes-ensure_page_is_allocated}
use se_l4cp_poc.Load.Halts.{Halts-ensure_page_is_allocated}
use se_l4cp_poc.Load.Window.{IsHandle, ensured}
use se_l4cp_poc.Load.Image.{
  stores, Evolves-stores, image, StoresImage, image_id, image_byte, Starts, first-IsPart,
  StoresImage-round,
}

module _ (e : Env) where
  -- A round has stored `ev`, and moved the cursor by `b`.
  abbrev Stepped : (b : ℕ) (ev : Event) → Cursor → World → Run (ℕ × Cursor) → Type 0
  Stepped b ev c w (ok (bytes_written, d) v) =
      (bytes_written ≡ b)
      × (d.src_read ≡ c.src_read + b)
      × (d.current_vaddr ≡ u64 (c.current_vaddr + b))
      × IsHandle e d.current_vaddr d.dst_write
      × (stores v.trace ≡ ev ∷ stores w.trace)
  Stepped b ev c w (fail v) = stores v.trace ≡ ev ∷ stores w.trace
  Stepped b ev c w (crash n v) = stores v.trace ≡ ev ∷ stores w.trace
  Stepped b ev c w (out_of_fuel v) = ⊥

  abbrev pub moved : ℕ → Cursor → ℕ → World → Run (ℕ × Cursor)
  moved b c dst_write v =
      ok
        (
          b,
          record {
            src_read = c.src_read + b;
            dst_write = dst_write;
            current_vaddr = u64 (c.current_vaddr + b);
          },
        )
        v

  after_store :
      (b : ℕ) (ev : Event) (c : Cursor) (w : World) (r : Run ℕ)
      → stores (final r).trace ≡ ev ∷ stores w.trace
      → Result (IsHandle e (u64 (c.current_vaddr + b))) r
      → HasEnded r
      → Stepped b ev c w (and_then r (moved b c))
  after_store b ev c w (ok dst v) s h ends = (refl, refl, refl, h, s)
  after_store b ev c w (fail v) s h ends = s
  after_store b ev c w (crash n v) s h ends = s
  after_store b ev c w (out_of_fuel v) s h ends = ends

  module _ (source : ℕ → ℕ) (pd_id_vaddr pd p_flags : ℕ) (aligned : pd_id_vaddr % 4 ≡ 0) where
    -- The page for the next address, behind a store.
    ensured_after :
        (b : ℕ) (ev : Event) (c : Cursor) (w : World)
        → IsHandle e c.current_vaddr c.dst_write
        → c.current_vaddr % 0x1000 + b ≤ 0x1000
        → stores (ev ∷ w.trace) ≡ ev ∷ stores w.trace
        → Stepped b ev c w (
            and_then
              (ensure_page_is_allocated
                (c.dst_write + b)
                (u64 (c.current_vaddr + b))
                pd
                p_flags
                e
                (record w { trace = ev ∷ w.trace }))
              (moved b c))
    ensured_after b ev c w handle fits kept =
        after_store b ev c w _
          (Evolves-stores (
              (Goes-ensure_page_is_allocated {Q = IsPlain} {e = e} (λ _ p. p) _ _ pd p_flags).from
                _)
            ∙ kept)
          ((ensured (c.dst_write + b) (u64 (c.current_vaddr + b)) pd p_flags
              (λ inside. omega arith)).from
            _)
          ((Halts-ensure_page_is_allocated _ _ pd p_flags).from _)

    step_id :
        (c : Cursor) (w : World)
        → IsHandle e c.current_vaddr c.dst_write
        → (c.current_vaddr == pd_id_vaddr) ≡ true
        → Stepped 4 (stored32 c.dst_write pd) c w (write_step source pd_id_vaddr pd p_flags c e w)
    unfolding write_step write_elf_data ◌>>=◌
    step_id c w handle is =
        let p : c.current_vaddr ≡ pd_id_vaddr = (==_iff _ _).0 is in
        rw is (
          ensured_after 4 (stored32 c.dst_write pd) c w handle (omega arith)
            (unfold stores in refl))

    step_byte :
        (c : Cursor) (w : World)
        → IsHandle e c.current_vaddr c.dst_write
        → (c.current_vaddr == pd_id_vaddr) ≡ false
        → Stepped 1
            (stored8 c.dst_write (source c.src_read))
            c
            w
            (write_step source pd_id_vaddr pd p_flags c e w)
    unfolding write_step write_elf_data ◌>>=◌
    step_byte c w handle other = rw other (
        ensured_after 1 (stored8 c.dst_write (source c.src_read)) c w handle (omega arith)
          (unfold stores in refl))

    -- The rest of the loop, as `n` bytes from a cursor on.
    module _ (fuel count : ℕ) where
      abbrev StoresRest : ℕ → Cursor → World → Type 0
      StoresRest j c w =
          StoresImage e source pd_id_vaddr pd (count - j) c.current_vaddr c.src_read
            (stores w.trace) (write_bytes fuel source count pd_id_vaddr pd p_flags j c e w)

      -- The addresses do not wrap, as far as they are used.
      abbrev IsPlaced : ℕ → Cursor → Type 0
      IsPlaced j c =
          (j < count → c.current_vaddr + (count - j) + 4 ≤ 2 ^ 64)
          × IsHandle e c.current_vaddr c.dst_write

      round :
          (b : ℕ) (ev : Event) (j : ℕ) (c : Cursor) (w : World) (r : Run (ℕ × Cursor))
          → Starts e source pd_id_vaddr pd b ev c.current_vaddr c.src_read
          → (1 ≤ b) × (b ≤ 4)
          → (j < count) × (count + 4 ≤ 2 ^ 64)
          → IsPlaced j c
          → Stepped b ev c w r
          → ((j' : ℕ) (d : Cursor) (v : World)
              → count - j' ≤ count - j - 1
              → IsPlaced j' d
              → StoresRest j' d v)
          → StoresImage e source pd_id_vaddr pd
              (count - j)
              c.current_vaddr
              c.src_read
              (stores w.trace)
              (and_then r (λ x v.
                write_bytes fuel source count pd_id_vaddr pd p_flags (u64 (j + x.0)) x.1 e v))
      round b ev j c w (ok (b', d) v) starts width inside placed (same, read, vaddr, handle, s)
            rest =
          let j_next : u64 (j + b') ≡ j + b = omega (arith, same, inside.0, inside.1, width.1) in
          let v_next : d.current_vaddr ≡ c.current_vaddr + b =
            vaddr ∙ omega (arith, placed.0 inside.0, inside.0, width.1) in
          let left : count - (j + b) ≡ count - j - b = omega arith in
          StoresImage-round e source pd_id_vaddr pd b ev c.current_vaddr c.src_read starts width.0
            (count - j) (stores w.trace) _ (omega (arith, inside.0))
            (rw (← left, ← v_next, ← read, ← s, ← j_next)
              (rest (u64 (j + b')) d v (omega (arith, j_next, inside.0, width.0))
                (λ more. omega (arith, j_next, v_next, placed.0 inside.0, more), handle)))
      round b ev j c w (fail v) starts width inside placed s rest =
          first-IsPart e source pd_id_vaddr pd b ev c.current_vaddr c.src_read starts width.0
            (count - j) (stores w.trace) v (omega (arith, inside.0)) s
      round b ev j c w (crash n v) starts width inside placed s rest =
          first-IsPart e source pd_id_vaddr pd b ev c.current_vaddr c.src_read starts width.0
            (count - j) (stores w.trace) v (omega (arith, inside.0)) s
      round b ev j c w (out_of_fuel v) starts width inside placed s rest = s

    finished :
        (fuel count j : ℕ) (c : Cursor) (w : World) → count ≤ j → StoresRest (suc fuel) count j c w
    unfolding write_bytes
    finished fuel count j c w done =
        let over : count - j ≡ 0 = omega arith in
        rw (ltb-false j count done, over, write_bytes) (unfold image pure in refl)

    continued :
        (fuel count j : ℕ) (c : Cursor) (w : World)
        → (j < count) × (count + 4 ≤ 2 ^ 64)
        → IsPlaced fuel count j c
        → ((j' : ℕ) (d : Cursor) (v : World)
            → count - j' ≤ count - j - 1
            → IsPlaced fuel count j' d
            → StoresRest fuel count j' d v)
        → StoresRest (suc fuel) count j c w
    unfolding write_bytes ◌>>=◌
    continued fuel count j c w inside placed rest =
        elim (Bool-cases (c.current_vaddr == pd_id_vaddr)) [
          | inl is ↦
              rw (lt→ltb j count inside.0, write_bytes)
                (round fuel count 4 (stored32 c.dst_write pd) j c w _
                  (λ n t some_left.
                    rw placed.1 (image_id e source pd_id_vaddr pd n _ _ t is some_left))
                  (omega arith, omega arith) inside placed (step_id c w placed.1 is) rest)
          | inr other ↦
              rw (lt→ltb j count inside.0, write_bytes)
                (round fuel count 1 (stored8 c.dst_write (source c.src_read)) j c w _
                  (λ n t some_left.
                    rw placed.1 (image_byte e source pd_id_vaddr pd n _ _ t other some_left))
                  (omega arith, omega arith) inside placed (step_byte c w placed.1 other) rest)
        ]

    -- With the variable for the PD's identifier at a multiple of 4 and a round for each byte that
    -- is left and one more, where neither the count nor the addresses wrap and `dst_write` is the
    -- write handle for the address: the loop ends, and has stored, each at its address within the
    -- temporary page, the remaining bytes of the segment in order, with the PD's identifier for the
    -- variable's, or, if it fails or crashes, a first part of them, and nothing else.
    pub write_bytes-StoresImage :
        (fuel count j : ℕ) (c : Cursor) (w : World)
        → count + 4 ≤ 2 ^ 64
        → count ≤ j + fuel
        → (j < count → c.current_vaddr + (count - j) + 4 ≤ 2 ^ 64)
        → IsHandle e c.current_vaddr c.dst_write
        → StoresImage e source pd_id_vaddr pd
            (count - j)
            c.current_vaddr
            c.src_read
            (stores w.trace)
            (write_bytes (suc fuel) source count pd_id_vaddr pd p_flags j c e w)
    write_bytes-StoresImage zero count j c w small enough places handle =
        finished zero count j c w (omega arith)
    write_bytes-StoresImage (suc fuel) count j c w small enough places handle =
        elim (Bool-cases (ltb j count)) [
          | inl more ↦
              continued (suc fuel) count j c w (ltb→lt j count more, small) (places, handle)
                λ j' d v less placed'.
                  write_bytes-StoresImage fuel count j' d v small
                    (omega (arith, less, ltb→lt j count more)) placed'.0 placed'.1
          | inr done ↦ finished (suc fuel) count j c w (ltb_false→le j count done)
        ]
