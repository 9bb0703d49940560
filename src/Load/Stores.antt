-- ===== src/Load/Stores.antt =====
-- `load_segments` makes steps whose events have a property that all events have which let no
-- protection domain run.
use se_l4cp_poc.Prelude.{ℕ, zero, suc, inl, inr, ltb, Bool-cases}
use se_l4cp_poc.Machine.State.{Memory, Event, Env}
use se_l4cp_poc.Machine.Evolves.{
  Goes, IsStill, IsPlain-IsStill, goes_rules, Goes-pure, Goes-exhausted, Goes-emit, Goes-bind,
}
use se_l4cp_poc.Elf.{ElfProgramHeader}
use se_l4cp_poc.Load.{
  Cursor, write_elf_data, write_step, write_bytes, write_zeros, load_segment, load_if_loadable,
  load_segments,
}
use se_l4cp_poc.Load.Steps.{Goes-ensure_page_is_allocated}

module _ {Q : Event → Type 0} {e : Env} (any : (ev : Event) → IsStill ev → Q ev)
    (pd_id_vaddr pd : ℕ) where
  Goes-write_elf_data :
      (byte target vaddr : ℕ) → Goes Q e (write_elf_data byte target vaddr pd_id_vaddr pd)
  unfolding write_elf_data
  Goes-write_elf_data byte target vaddr = search (goes_rules, Goes-emit, any)

  Goes-write_step :
      (source : ℕ → ℕ) (p_flags : ℕ) (c : Cursor)
      → Goes Q e (write_step source pd_id_vaddr pd p_flags c)
  unfolding write_step
  Goes-write_step source p_flags c = Goes-bind _ _ (Goes-write_elf_data _ _ _) λ n.
      Goes-bind _ _
        (Goes-ensure_page_is_allocated (λ ev p. any ev (IsPlain-IsStill ev p)) _ _ pd p_flags)
        λ dst_write. Goes-pure _

  Goes-write_bytes :
      (fuel : ℕ) (source : ℕ → ℕ) (count p_flags j : ℕ) (c : Cursor)
      → Goes Q e (write_bytes fuel source count pd_id_vaddr pd p_flags j c)
  unfolding write_bytes
  Goes-write_bytes zero source count p_flags j c = Goes-exhausted
  Goes-write_bytes (suc fuel) source count p_flags j c = elim (Bool-cases (ltb j count)) [
    | inl more ↦
        rw (more, write_bytes)
          (Goes-bind _ _ (Goes-write_step source p_flags c)
            λ r. Goes-write_bytes fuel source count p_flags _ r.1)
    | inr done ↦ rw (done, write_bytes) (Goes-pure c)
  ]

  Goes-write_zeros :
      (hdr : ElfProgramHeader) (c : Cursor) → Goes Q e (write_zeros pd_id_vaddr pd hdr c)
  unfolding write_zeros
  Goes-write_zeros hdr c = search (goes_rules, Goes-write_bytes)

  Goes-load_segment :
      (m : Memory) (src : ℕ) (hdr : ElfProgramHeader)
      → Goes Q e (load_segment m src pd_id_vaddr pd hdr)
  unfolding load_segment
  Goes-load_segment m src hdr =
      Goes-bind _ _ (Goes-ensure_page_is_allocated (λ ev p. any ev (IsPlain-IsStill ev p)) _ _ pd _)
        λ dst_write. Goes-bind _ _ (Goes-write_bytes _ _ _ _ _ _) λ c. Goes-write_zeros hdr c

  Goes-load_if_loadable :
      (m : Memory) (src : ℕ) (hdr : ElfProgramHeader)
      → Goes Q e (load_if_loadable m src pd_id_vaddr pd hdr)
  unfolding load_if_loadable
  Goes-load_if_loadable m src hdr = search (goes_rules, Goes-load_segment)

  pub Goes-load_segments :
      (n : ℕ) (m : Memory) (src i : ℕ) → Goes Q e (load_segments n m src pd_id_vaddr pd i)
  unfolding load_segments
  Goes-load_segments zero m src i = Goes-pure tt
  Goes-load_segments (suc n) m src i =
      Goes-bind _ _ (Goes-load_if_loadable m src _) λ _. Goes-load_segments n m src _
