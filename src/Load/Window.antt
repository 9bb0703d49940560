-- ===== src/Load/Window.antt =====
-- Where the loop over the program headers stores, relative to the temporary page at
-- `__SEL4_TEMP_PAGE_VADDR`.
use se_l4cp_poc.Prelude.{
  ℕ, zero, suc, ◌+◌, ◌%◌, ◌≤◌, ◌≡◌, ◌≢◌, refl, inl, inr, ◌||◌, arith, ltb, ◌==◌, Bool-cases, ==_iff,
}
use se_l4cp_poc.Prelude.Words.{u64}
use se_l4cp_poc.Machine.State.{Memory, Event, stored8, stored32, Env, temp_page_vaddr}
use se_l4cp_poc.Machine.Run.{pure, ◌>>=◌, ask}
use se_l4cp_poc.Machine.Evolves.{
  Goes, Admits, goes_rules, Goes-pure, Goes-exhausted, Goes-bind, Goes-emit, Goes-if,
}
use se_l4cp_poc.Machine.Yields
use se_l4cp_poc.Machine.Yields.{Yields, Goes-bind_known}
use se_l4cp_poc.Elf.{ElfProgramHeader, load8}
use se_l4cp_poc.Paging.{allocate_page_with_write_handle}
use se_l4cp_poc.Load.{
  Cursor, write_elf_data, ensure_page_is_allocated, write_step, write_bytes, write_zeros,
  load_segment, load_if_loadable, load_segments,
}
use se_l4cp_poc.Load.Steps.{Goes-ensure_page_is_allocated}

-- A store keeps within the temporary page.
abbrev pub InWindow : Env → Event → Type 0
InWindow e (stored8 addr value) =
    (temp_page_vaddr e ≤ addr) × (addr + 1 ≤ temp_page_vaddr e + 0x1000)
InWindow e (stored32 addr value) =
    (temp_page_vaddr e ≤ addr) × (addr + 4 ≤ temp_page_vaddr e + 0x1000)
InWindow e _ = Unit {0}

plain-InWindow : (e : Env) → Admits (InWindow e)
plain-InWindow e (stored8 addr value) p = absurd p
plain-InWindow e (stored32 addr value) p = absurd p
plain-InWindow e _ p = tt

-- The write handle for an address.
abbrev pub IsHandle : Env → (vaddr handle : ℕ) → Type 0
IsHandle e vaddr handle = handle ≡ temp_page_vaddr e + vaddr % 0x1000

-- What is written at `vaddr` ends within its page.
abbrev Fits : (vaddr bytes_written : ℕ) → Type 0
Fits vaddr bytes_written = vaddr % 0x1000 + bytes_written ≤ 0x1000

module _ {e : Env} where
  IsHandle-at :
      (vaddr : ℕ)
      → Yields e
          (ask temp_page_vaddr >>= λ temp_page. pure (temp_page + vaddr % 0x1000))
          (IsHandle e vaddr)
  unfolding ◌>>=◌
  IsHandle-at vaddr = record { from = λ w. refl }

  IsHandle-of_page :
      (vaddr vspace p_flags : ℕ)
      → Yields e (allocate_page_with_write_handle vaddr vspace p_flags) (IsHandle e vaddr)
  unfolding allocate_page_with_write_handle
  IsHandle-of_page vaddr vspace p_flags =
      Yields.Yields-bind _ _ _
        λ cap. Yields.Yields-bind _ _ _ λ _. Yields.Yields-bind _ _ _ λ _. IsHandle-at vaddr

  pub ensured :
      (write_handle vaddr pd p_flags : ℕ)
      → (vaddr % 0x1000 ≢ 0 → IsHandle e vaddr write_handle)
      → Yields e (ensure_page_is_allocated write_handle vaddr pd p_flags) (IsHandle e vaddr)
  unfolding ensure_page_is_allocated
  ensured write_handle vaddr pd p_flags h =
      elim (Bool-cases ((write_handle == 0) || (vaddr % 0x1000 == 0))) [
        | inl new ↦ rw new (Yields.Yields-on_fail _ _ _ (IsHandle-of_page vaddr _ p_flags))
        | inr old ↦ rw old (Yields.Yields-pure _ write_handle (h (ground arith)))
      ]

  pub new_page :
      (vaddr pd p_flags : ℕ)
      → Yields e (ensure_page_is_allocated 0 vaddr pd p_flags) (IsHandle e vaddr)
  unfolding ensure_page_is_allocated
  new_page vaddr pd p_flags = Yields.Yields-on_fail _ _ _ (IsHandle-of_page vaddr _ p_flags)

  module _ (pd_id_vaddr pd : ℕ) (aligned : pd_id_vaddr % 4 ≡ 0) where
    write_elf_data-Fits :
        (byte target vaddr : ℕ)
        → Yields e (write_elf_data byte target vaddr pd_id_vaddr pd) (Fits vaddr)
    unfolding write_elf_data
    write_elf_data-Fits byte target vaddr = elim (Bool-cases (vaddr == pd_id_vaddr)) [
      | inl same ↦
          let p : vaddr ≡ pd_id_vaddr = (==_iff _ _).0 same in
          rw same (Yields.Yields-bind _ _ _ λ _. Yields.Yields-pure _ 4 (omega arith))
      | inr other ↦ rw other (Yields.Yields-bind _ _ _ λ _. Yields.Yields-pure _ 1 (omega arith))
    ]

    write_elf_data-InWindow :
        (byte target vaddr : ℕ)
        → IsHandle e vaddr target
        → Goes (InWindow e) e (write_elf_data byte target vaddr pd_id_vaddr pd)
    unfolding write_elf_data
    write_elf_data-InWindow byte target vaddr h = elim (Bool-cases (vaddr == pd_id_vaddr)) [
      | inl same ↦
          let p : vaddr ≡ pd_id_vaddr = (==_iff _ _).0 same in
          rw same (
            Goes-bind _ _ (Goes-emit (stored32 target pd) (omega arith, omega arith))
              (λ _. Goes-pure 4))
      | inr other ↦ rw other (
          Goes-bind _ _ (Goes-emit (stored8 target byte) (omega arith, omega arith))
            (λ _. Goes-pure 1))
    ]

    module _ (source : ℕ → ℕ) (p_flags : ℕ) where
      write_step-IsHandle :
          (c : Cursor)
          → IsHandle e c.current_vaddr c.dst_write
          → Yields e
              (write_step source pd_id_vaddr pd p_flags c)
              (λ r. IsHandle e r.1.current_vaddr r.1.dst_write)
      unfolding write_step
      write_step-IsHandle c h =
          Yields.Yields-bind_known (Fits c.current_vaddr) _ _ _ (write_elf_data-Fits _ _ _)
            λ bytes_written fits.
              Yields.Yields-bind_known (IsHandle e (u64 (c.current_vaddr + bytes_written))) _ _ _
                (ensured _ _ pd p_flags (λ inside. omega arith))
                λ dst_write is. Yields.Yields-pure _ _ is

      write_step-InWindow :
          (c : Cursor)
          → IsHandle e c.current_vaddr c.dst_write
          → Goes (InWindow e) e (write_step source pd_id_vaddr pd p_flags c)
      unfolding write_step
      write_step-InWindow c h = Goes-bind _ _ (write_elf_data-InWindow _ _ _ h) λ bytes_written.
          Goes-bind _ _ (Goes-ensure_page_is_allocated (plain-InWindow e) _ _ pd p_flags)
            λ dst_write. Goes-pure _

      write_bytes-IsHandle :
          (fuel count j : ℕ) (c : Cursor)
          → IsHandle e c.current_vaddr c.dst_write
          → Yields e
              (write_bytes fuel source count pd_id_vaddr pd p_flags j c)
              (λ d. IsHandle e d.current_vaddr d.dst_write)
      unfolding write_bytes
      write_bytes-IsHandle zero count j c h = Yields.Yields-exhausted _
      write_bytes-IsHandle (suc fuel) count j c h = elim (Bool-cases (ltb j count)) [
        | inl more ↦
            rw (more, write_bytes)
              (Yields.Yields-bind_known _ _ _ _ (write_step-IsHandle c h)
                λ r is. write_bytes-IsHandle fuel count _ r.1 is)
        | inr done ↦ rw (done, write_bytes) (Yields.Yields-pure _ c h)
      ]

      write_bytes-InWindow :
          (fuel count j : ℕ) (c : Cursor)
          → IsHandle e c.current_vaddr c.dst_write
          → Goes (InWindow e) e (write_bytes fuel source count pd_id_vaddr pd p_flags j c)
      unfolding write_bytes
      write_bytes-InWindow zero count j c h = Goes-exhausted
      write_bytes-InWindow (suc fuel) count j c h = elim (Bool-cases (ltb j count)) [
        | inl more ↦
            rw (more, write_bytes)
              (Goes-bind_known _ _ _ (write_step-InWindow c h) (write_step-IsHandle c h)
                λ r is. write_bytes-InWindow fuel count _ r.1 is)
        | inr done ↦ rw (done, write_bytes) (Goes-pure c)
      ]

    write_zeros-InWindow :
        (hdr : ElfProgramHeader) (c : Cursor)
        → IsHandle e c.current_vaddr c.dst_write
        → Goes (InWindow e) e (write_zeros pd_id_vaddr pd hdr c)
    unfolding write_zeros
    write_zeros-InWindow hdr c h =
        Goes-if _ _ _ (write_bytes-InWindow (λ _. 0) hdr.p_flags _ _ 0 c h) (Goes-pure c)

    load_segment-InWindow :
        (m : Memory) (src : ℕ) (hdr : ElfProgramHeader)
        → Goes (InWindow e) e (load_segment m src pd_id_vaddr pd hdr)
    unfolding load_segment
    load_segment-InWindow m src hdr =
        Goes-bind_known (IsHandle e hdr.p_vaddr) _ _
          (Goes-ensure_page_is_allocated (plain-InWindow e) 0 hdr.p_vaddr pd hdr.p_flags)
          (new_page hdr.p_vaddr pd hdr.p_flags)
          λ dst_write is.
            Goes-bind_known (λ (d : Cursor). IsHandle e d.current_vaddr d.dst_write) _ _
              (write_bytes-InWindow (load8 m) hdr.p_flags _ _ 0 _ is)
              (write_bytes-IsHandle (load8 m) hdr.p_flags _ _ 0 _ is)
              λ c h. write_zeros-InWindow hdr c h

    load_if_loadable-InWindow :
        (m : Memory) (src : ℕ) (hdr : ElfProgramHeader)
        → Goes (InWindow e) e (load_if_loadable m src pd_id_vaddr pd hdr)
    unfolding load_if_loadable
    load_if_loadable-InWindow m src hdr = search (goes_rules, load_segment-InWindow)

    -- Whatever the ELF file, the kernel and the outcome: if the address of the variable for the
    -- PD's identifier is a multiple of 4, every byte that the loop over the program headers stores
    -- lies within the temporary page of the current PD.
    pub load_segments-InWindow :
        (n : ℕ) (m : Memory) (src i : ℕ)
        → Goes (InWindow e) e (load_segments n m src pd_id_vaddr pd i)
    unfolding load_segments
    load_segments-InWindow zero m src i = Goes-pure tt
    load_segments-InWindow (suc n) m src i =
        Goes-bind _ _ (load_if_loadable-InWindow m src _) (λ _. load_segments-InWindow n m src _)
