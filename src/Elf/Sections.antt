-- ===== src/Elf/Sections.antt =====
-- The search for the symbol table among the section headers, in `sel4cp_internal_get_symbol`.
use se_l4cp_poc.Prelude.{
  ℕ, zero, suc, ◌+◌, ◌<◌, ◌≡◌, ap, subst, inl, inr, Option, none, some, arith, ◌==◌, Bool-cases,
  ==_iff,
}
use se_l4cp_poc.Layout.{sht_symtab}
use se_l4cp_poc.Machine.State.{Memory}
use se_l4cp_poc.Elf.{elf_section_header, section_header_at, find_symbol_table}

module _ (m : Memory) (src : ℕ) where
  abbrev pub IsSymbolTable : ℕ → Type 0
  IsSymbolTable i = (elf_section_header m (section_header_at m src i)).sh_type ≡ sht_symtab

  -- What a search of the `n` section headers from number `i` on should end with.
  abbrev pub IsFirstSymbolTable : (n i : ℕ) → Option ℕ → Type 0
  IsFirstSymbolTable n i (some a) =
      (k : ℕ) × (k < n)
      × (a ≡ section_header_at m src (i + k))
      × IsSymbolTable (i + k)
      × ((j : ℕ) → j < k → ¬ IsSymbolTable (i + j))
  IsFirstSymbolTable n i none = (j : ℕ) → j < n → ¬ IsSymbolTable (i + j)

  module _ (n i : ℕ) where
    hit : IsSymbolTable i → find_symbol_table (suc n) m src i ≡ some (section_header_at m src i)
    unfolding find_symbol_table
    hit h = ground arith

    skip : ¬ IsSymbolTable i → find_symbol_table (suc n) m src i ≡ find_symbol_table n m src (i + 1)
    unfolding find_symbol_table
    skip h = ground arith

  later :
      (n i : ℕ) (o : Option ℕ)
      → ¬ IsSymbolTable i
      → IsFirstSymbolTable n (i + 1) o
      → IsFirstSymbolTable (suc n) i o
  later n i (some a) not_here (k, lt, place, is_table, others) = (
    k + 1,
    omega arith,
    subst (λ x. a ≡ section_header_at m src x) (omega arith) place,
    subst IsSymbolTable (omega arith) is_table,
    earlier,
  )
    where
      earlier : (j : ℕ) → j < k + 1 → ¬ IsSymbolTable (i + j)
      earlier zero lt t = not_here (subst IsSymbolTable (omega arith) t)
      earlier (suc j) lt t = others j (omega arith) (subst IsSymbolTable (omega arith) t)
  later n i none not_here others = all
    where
      all : (j : ℕ) → j < suc n → ¬ IsSymbolTable (i + j)
      all zero lt t = not_here (subst IsSymbolTable (omega arith) t)
      all (suc j) lt t = others j (omega arith) (subst IsSymbolTable (omega arith) t)

  first_of_more :
      (n i : ℕ)
      → IsFirstSymbolTable n (i + 1) (find_symbol_table n m src (i + 1))
      → IsFirstSymbolTable (suc n) i (find_symbol_table (suc n) m src i)
  first_of_more n i rest =
      elim (Bool-cases ((elf_section_header m (section_header_at m src i)).sh_type == sht_symtab)) [
        | inl is_table ↦
            let here : IsSymbolTable i = (==_iff _ _).0 is_table in
            rw (hit n i here) (
              0,
              omega arith,
              ap (section_header_at m src) (omega arith),
              subst IsSymbolTable (omega arith) here,
              λ j lt. absurd (omega arith),
            )
        | inr other ↦
            let not_here : ¬ IsSymbolTable i = ground arith in
            rw (skip n i not_here) (later n i _ not_here rest)
      ]

  -- The search of section headers returns the address of the first one of type SHT_SYMTAB, and
  -- NULL only if there is none among them.
  pub find_symbol_table-IsFirstSymbolTable :
      (n i : ℕ) → IsFirstSymbolTable n i (find_symbol_table n m src i)
  find_symbol_table-IsFirstSymbolTable zero i = nothing
    where
      nothing : IsFirstSymbolTable zero i (find_symbol_table zero m src i)
      nothing = unfold find_symbol_table in λ j lt. absurd (omega arith)
  find_symbol_table-IsFirstSymbolTable (suc n) i =
      first_of_more n i (find_symbol_table-IsFirstSymbolTable n (i + 1))
