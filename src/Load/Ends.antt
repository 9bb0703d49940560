-- ===== src/Load/Ends.antt =====
-- The rounds of the loops that load the segments.
use se_l4cp_poc.Prelude.{
  ℕ, zero, suc, ◌+◌, ◌-◌, ◌*◌, ◌^◌, ◌≤◌, ◌<◌, ◌≡◌, inl, inr, subst, arith, ltb, ltb→lt, ltb-false,
  ◌==◌, ==_iff, Bool-cases,
}
use se_l4cp_poc.Layout.{pt_load}
use se_l4cp_poc.Machine.State.{Memory, Env}
use se_l4cp_poc.Machine.Yields
use se_l4cp_poc.Machine.Yields.{Yields}
use se_l4cp_poc.Machine.Halts.{
  Halts, halts_rules, Halts-pure, Halts-bind, Halts-bind_known, Halts-if,
}
use se_l4cp_poc.Elf.{ElfProgramHeader, elf_header, elf_program_header, load8}
use se_l4cp_poc.Load.{
  Cursor, write_elf_data, write_step, write_bytes, write_zeros, load_segment, load_if_loadable,
  load_segments,
}
use se_l4cp_poc.Load.Halts.{Halts-ensure_page_is_allocated}

-- A round writes one byte or four.
abbrev IsStep : ℕ → Type 0
IsStep bytes_written = (1 ≤ bytes_written) × (bytes_written ≤ 4)

-- The sizes of a segment leave room for a round behind the last byte.
abbrev pub HasSizes : ElfProgramHeader → Type 0
HasSizes hdr = (hdr.p_filesz + 4 ≤ 2 ^ 64) × (hdr.p_memsz + 4 ≤ 2 ^ 64)

-- Program header `i` of the file.
abbrev pub header_at : Memory → ℕ → ℕ → ElfProgramHeader
header_at m src i =
    elf_program_header m (src + (elf_header m src).e_phoff + i * (elf_header m src).e_phentsize)

module _ {e : Env} (pd_id_vaddr pd : ℕ) where
  Halts-write_elf_data :
      (byte target vaddr : ℕ) → Halts e (write_elf_data byte target vaddr pd_id_vaddr pd)
  unfolding write_elf_data
  Halts-write_elf_data byte target vaddr = search halts_rules

  write_elf_data-IsStep :
      (byte target vaddr : ℕ) → Yields e (write_elf_data byte target vaddr pd_id_vaddr pd) IsStep
  unfolding write_elf_data
  write_elf_data-IsStep byte target vaddr =
      Yields.Yields-if _ _ _ _
        (Yields.Yields-bind _ _ _ λ _. Yields.Yields-pure _ 4 (omega arith, omega arith))
        (Yields.Yields-bind _ _ _ λ _. Yields.Yields-pure _ 1 (omega arith, omega arith))

  module _ (source : ℕ → ℕ) (p_flags : ℕ) where
    Halts-write_step : (c : Cursor) → Halts e (write_step source pd_id_vaddr pd p_flags c)
    unfolding write_step
    Halts-write_step c = search (halts_rules, Halts-write_elf_data, Halts-ensure_page_is_allocated)

    write_step-IsStep :
        (c : Cursor) → Yields e (write_step source pd_id_vaddr pd p_flags c) (λ r. IsStep r.0)
    unfolding write_step
    write_step-IsStep c =
        Yields.Yields-bind_known IsStep _ _ _ (write_elf_data-IsStep _ _ _)
          λ bytes_written is. Yields.Yields-bind _ _ _ λ dst_write. Yields.Yields-pure _ _ is

    -- With a round for each byte that is left and one more.
    Halts-write_bytes :
        (fuel count j : ℕ) (c : Cursor)
        → count + 4 ≤ 2 ^ 64
        → count ≤ j + fuel
        → Halts e (write_bytes (suc fuel) source count pd_id_vaddr pd p_flags j c)
    unfolding write_bytes
    Halts-write_bytes zero count j c small enough =
        rw (ltb-false j count (omega arith), write_bytes) (Halts-pure c)
    Halts-write_bytes (suc fuel) count j c small enough = elim (Bool-cases (ltb j count)) [
      | inl more ↦
          let inside : j < count = ltb→lt j count more in
          rw (more, write_bytes)
            (Halts-bind_known (λ r. IsStep r.0) _ _ (Halts-write_step c) (write_step-IsStep c)
              λ r is. Halts-write_bytes fuel count _ r.1 small (omega arith))
      | inr done ↦ rw (done, write_bytes) (Halts-pure c)
    ]

    enough_rounds :
        (count : ℕ) (c : Cursor)
        → count + 4 ≤ 2 ^ 64
        → Halts e (write_bytes (count + 1) source count pd_id_vaddr pd p_flags 0 c)
    enough_rounds count c small =
        subst (λ fuel. Halts e (write_bytes fuel source count pd_id_vaddr pd p_flags 0 c))
          (omega arith) (Halts-write_bytes count count 0 c small (omega arith))

  module _ (m : Memory) (src : ℕ) where
    Halts-load_segment :
        (hdr : ElfProgramHeader) → HasSizes hdr → Halts e (load_segment m src pd_id_vaddr pd hdr)
    unfolding load_segment write_zeros
    Halts-load_segment hdr sizes =
        Halts-bind _ _ (Halts-ensure_page_is_allocated 0 hdr.p_vaddr pd hdr.p_flags) λ dst_write.
          Halts-bind _ _ (enough_rounds (load8 m) hdr.p_flags hdr.p_filesz _ sizes.0) λ c.
            Halts-if _ _ _
              (enough_rounds (λ _. 0) hdr.p_flags (hdr.p_memsz - hdr.p_filesz) c
                (omega (arith, sizes.1)))
              (Halts-pure c)

    Halts-load_if_loadable :
        (hdr : ElfProgramHeader)
        → (hdr.p_type ≡ pt_load → HasSizes hdr)
        → Halts e (load_if_loadable m src pd_id_vaddr pd hdr)
    unfolding load_if_loadable
    Halts-load_if_loadable hdr sizes = elim (Bool-cases (hdr.p_type == pt_load)) [
      | inl is ↦
          rw is (
            Halts-bind _ _ (Halts-load_segment hdr (sizes ((==_iff _ _).0 is)))
              (λ _. Halts-pure tt))
      | inr other ↦ rw other (Halts-pure tt)
    ]

    pub Halts-load_segments :
        (n i : ℕ)
        → ((k : ℕ)
            → k < n
            → (header_at m src (i + k)).p_type ≡ pt_load
            → HasSizes (header_at m src (i + k)))
        → Halts e (load_segments n m src pd_id_vaddr pd i)
    unfolding load_segments
    Halts-load_segments zero i sizes = Halts-pure tt
    Halts-load_segments (suc n) i sizes =
        Halts-bind _ _
          (Halts-load_if_loadable (header_at m src i) (
            subst (λ x. (header_at m src x).p_type ≡ pt_load → HasSizes (header_at m src x))
              (omega arith) (sizes 0 (omega arith))))
          λ _. Halts-load_segments n (i + 1) λ k lt.
            subst (λ x. (header_at m src x).p_type ≡ pt_load → HasSizes (header_at m src x))
              (omega arith) (sizes (k + 1) (omega arith))
