-- ===== src/Load/Reasons.antt =====
-- Why the functions of `Load` fail.
use se_l4cp_poc.Prelude.{
  ℕ, zero, suc, ◌+◌, ◌≡◌, refl, inl, inr, List, Bool-cases, ltb, ◌==◌, ==_iff, ◌∙◌, if◌then◌else◌,
}
use se_l4cp_poc.Machine.State.{Memory, Env}
use se_l4cp_poc.Machine.Run.{pure, failure, ask, ◌>>=◌}
use se_l4cp_poc.Machine.Yields.{Yields, Yields-bind_known, Yields-on_fail}
use se_l4cp_poc.Machine.Reasons.{
  Explains, explains_rules, Fails-failure, Tells-puts, Explains-pure, Explains-bad,
  Explains-exhausted, Explains-on_fail, Explains-bind, Explains-bind_known, Explains-ask_bind,
}
use se_l4cp_poc.Elf.{ElfProgramHeader, elf_symbol_table_entry, found, bytes_of}
use se_l4cp_poc.Elf.Symbols.{NoNul, NoNul-of}
use se_l4cp_poc.Elf.Lookup.{EndsWith, HasNoSymbol}
use se_l4cp_poc.Elf.Reasons.{Explains-get_symbol, get_symbol-EndsWith}
use se_l4cp_poc.Caps.Reasons.{Explains-pd_restart}
use se_l4cp_poc.Paging.Reasons.{paging_reasons}
use se_l4cp_poc.Rights.Invalid.{HasInvalidTable}
use se_l4cp_poc.Rights.Reasons.{Explains-set_up_access_rights}
use se_l4cp_poc.Load.{
  Cursor, set_up_ipc_buffer, get_pd_id_vaddr, write_elf_data, ensure_page_is_allocated, write_step,
  write_bytes, write_zeros, load_segment, load_if_loadable, load_segments, find_pd_id_vaddr,
  pd_load_elf,
}

abbrev pub id_name : List ℕ
id_name = bytes_of "sel4cp_current_pd_id"

abbrev pub buffer_name : List ℕ
buffer_name = bytes_of "__sel4_ipc_buffer_obj"

id_name-NoNul : NoNul id_name
id_name-NoNul = NoNul-of id_name refl

buffer_name-NoNul : NoNul buffer_name
buffer_name-NoNul = NoNul-of buffer_name refl

-- What can be wrong with an ELF file: it is NULL, one of the two symbols is missing, the first has
-- the value 0, or an access right has no type.
pub data IsBadFile (m : Memory) (src : ℕ) : Type 0 where
  null : src ≡ 0 → IsBadFile m src
  no_id : HasNoSymbol m src id_name → IsBadFile m src
  null_id :
      (a : ℕ)
      → EndsWith m src id_name (found a)
      → (elf_symbol_table_entry m a).st_value ≡ 0
      → IsBadFile m src
  no_buffer : HasNoSymbol m src buffer_name → IsBadFile m src
  bad_right : HasInvalidTable m src → IsBadFile m src

module _ {Bad : Type 0} {e : Env} where
  Explains-write_elf_data :
      (byte target vaddr pd_id_vaddr pd : ℕ)
      → Explains Bad e (write_elf_data byte target vaddr pd_id_vaddr pd)
  unfolding write_elf_data
  Explains-write_elf_data byte target vaddr pd_id_vaddr pd = search explains_rules

  Explains-ensure_page_is_allocated :
      (write_handle vaddr pd p_flags : ℕ)
      → Explains Bad e (ensure_page_is_allocated write_handle vaddr pd p_flags)
  unfolding ensure_page_is_allocated
  Explains-ensure_page_is_allocated write_handle vaddr pd p_flags =
      search (explains_rules, paging_reasons) depth 9

  Explains-write_step :
      (source : ℕ → ℕ) (pd_id_vaddr pd p_flags : ℕ) (c : Cursor)
      → Explains Bad e (write_step source pd_id_vaddr pd p_flags c)
  unfolding write_step
  Explains-write_step source pd_id_vaddr pd p_flags c =
      search (explains_rules, Explains-write_elf_data, Explains-ensure_page_is_allocated)

  Explains-write_bytes :
      (fuel : ℕ) (source : ℕ → ℕ) (count pd_id_vaddr pd p_flags j : ℕ) (c : Cursor)
      → Explains Bad e (write_bytes fuel source count pd_id_vaddr pd p_flags j c)
  unfolding write_bytes
  Explains-write_bytes zero source count pd_id_vaddr pd p_flags j c = Explains-exhausted
  Explains-write_bytes (suc fuel) source count pd_id_vaddr pd p_flags j c =
      elim (Bool-cases (ltb j count)) [
        | inl more ↦
            rw (more, write_bytes)
              (Explains-bind _ _ (Explains-write_step source pd_id_vaddr pd p_flags c)
                (λ r. Explains-write_bytes fuel source count pd_id_vaddr pd p_flags _ r.1))
        | inr done ↦ rw (done, write_bytes) (Explains-pure c)
      ]

  module _ (m : Memory) (src pd_id_vaddr pd : ℕ) where
    Explains-load_segment :
        (hdr : ElfProgramHeader) → Explains Bad e (load_segment m src pd_id_vaddr pd hdr)
    unfolding load_segment write_zeros
    Explains-load_segment hdr =
        search (explains_rules, Explains-ensure_page_is_allocated, Explains-write_bytes) depth 9

    Explains-load_if_loadable :
        (hdr : ElfProgramHeader) → Explains Bad e (load_if_loadable m src pd_id_vaddr pd hdr)
    unfolding load_if_loadable
    Explains-load_if_loadable hdr = search (explains_rules, Explains-load_segment)

    Explains-load_segments : (n i : ℕ) → Explains Bad e (load_segments n m src pd_id_vaddr pd i)
    unfolding load_segments
    Explains-load_segments zero i = Explains-pure tt
    Explains-load_segments (suc n) i =
        Explains-bind _ _ (Explains-load_if_loadable _) (λ _. Explains-load_segments n (i + 1))

module _ {e : Env} (src : ℕ) where
  Explains-set_up_ipc_buffer :
      (pd : ℕ) → Explains (IsBadFile e.memory src) e (set_up_ipc_buffer src pd)
  unfolding set_up_ipc_buffer
  Explains-set_up_ipc_buffer pd =
      Explains-bind _ _
        (Explains-on_fail _ _ (Explains-get_symbol src buffer_name buffer_name-NoNul no_buffer)
          (Tells-puts _))
        (λ symbol. search (explains_rules, paging_reasons) depth 9)

  Explains-get_pd_id_vaddr : Explains (IsBadFile e.memory src) e (get_pd_id_vaddr src)
  unfolding get_pd_id_vaddr
  Explains-get_pd_id_vaddr =
      Explains-bind _ _
        (Explains-on_fail _ _ (Explains-get_symbol src id_name id_name-NoNul no_id) (Tells-puts _))
        (λ symbol. search explains_rules)

  get_pd_id_vaddr-value : Yields e (get_pd_id_vaddr src) (λ v.
      (a : ℕ) × EndsWith e.memory src id_name (found a)
      × ((elf_symbol_table_entry e.memory a).st_value ≡ v))
  unfolding get_pd_id_vaddr ask pure ◌>>=◌
  get_pd_id_vaddr-value =
      Yields-bind_known (λ a. EndsWith e.memory src id_name (found a)) _ _ _
        (Yields-on_fail _ _ _ (get_symbol-EndsWith src id_name id_name-NoNul))
        (λ a h. record { from = λ w. (a, h, refl) })

  Explains-find_pd_id_vaddr : Explains (IsBadFile e.memory src) e (find_pd_id_vaddr src)
  unfolding find_pd_id_vaddr
  Explains-find_pd_id_vaddr =
      Explains-on_fail _ _
        (Explains-bind_known
          (λ v.
            (a : ℕ) × EndsWith e.memory src id_name (found a)
            × ((elf_symbol_table_entry e.memory a).st_value ≡ v))
          _ _ Explains-get_pd_id_vaddr get_pd_id_vaddr-value tested)
        (Tells-puts _)
    where
      tested :
          (v : ℕ)
          → (a : ℕ) × EndsWith e.memory src id_name (found a)
            × ((elf_symbol_table_entry e.memory a).st_value ≡ v)
          → Explains (IsBadFile e.memory src) e (if v == 0 then failure else pure v)
      tested v (a, ends, is) = elim (Bool-cases (v == 0)) [
        | inl zero_ ↦
            rw zero_ (Explains-bad _ Fails-failure (null_id a ends (is ∙ (==_iff v 0).0 zero_)))
        | inr other ↦ rw other (Explains-pure v)
      ]

  pub Explains-pd_load_elf : (pd : ℕ) → Explains (IsBadFile e.memory src) e (pd_load_elf src pd)
  unfolding pd_load_elf
  Explains-pd_load_elf pd = Explains-bind _ _ Explains-find_pd_id_vaddr λ pd_id_vaddr.
      Explains-ask_bind _ _ (
        Explains-bind _ _ (Explains-load_segments e.memory src pd_id_vaddr pd _ 0) λ _.
          Explains-bind _ _ (Explains-on_fail _ _ (Explains-set_up_ipc_buffer pd) (Tells-puts _))
            λ _.
              Explains-bind _ _
                (Explains-on_fail _ _ (Explains-set_up_access_rights src pd bad_right)
                  (Tells-puts _))
                (λ _. Explains-pd_restart pd _))
