-- ===== src/Elf/Lookup.antt =====
-- `sel4cp_internal_get_symbol` as a whole: both of its searches, against the symbol that is meant.
use se_l4cp_poc.Prelude.{
  ℕ, ◌+◌, ◌<◌, ◌≡◌, refl, subst, ◌⊎◌, inl, inr, List, ◌∷◌, Option, none, some, arith,
}
use se_l4cp_poc.Machine.State.{Memory, printed, World, Env}
use se_l4cp_poc.Machine.Run.{Run, ok, fail, pure, failure, emit, ◌>>=◌}
use se_l4cp_poc.Elf.{
  elf_header, elf_section_header, section_header_at, Search, found, missing, unfinished,
  search_result, get_symbol,
}
use se_l4cp_poc.Elf.Sections.{
  IsSymbolTable, IsFirstSymbolTable, find_symbol_table-IsFirstSymbolTable,
}
use se_l4cp_poc.Elf.Symbols.{NoNul, strings_of, IsFirstNamed, search_table-IsFirstNamed}

module _ (m : Memory) (src : ℕ) where
  -- Section `k` is the first of type SHT_SYMTAB.
  pub record IsFirstTable (k : ℕ) : Type 0 where
    pub below : k < (elf_header m src).e_shnum
    pub is_table : IsSymbolTable m src k
    pub others : (j : ℕ) → j < k → ¬ IsSymbolTable m src j

  abbrev pub HasNoTable : Type 0
  HasNoTable = (j : ℕ) → j < (elf_header m src).e_shnum → ¬ IsSymbolTable m src j

  -- The file has a symbol table, and a search of its first one for the name ends with `s`.
  abbrev pub EndsWith : List ℕ → Search → Type 0
  EndsWith target s =
      (k : ℕ) × IsFirstTable k
      × IsFirstNamed m target (strings_of m src (section_header_at m src k))
          (src + (elf_section_header m (section_header_at m src k)).sh_offset)
          (src
            + (elf_section_header m (section_header_at m src k)).sh_offset
            + (elf_section_header m (section_header_at m src k)).sh_size)
          s

  abbrev pub HasNoSymbol : List ℕ → Type 0
  HasNoSymbol target = HasNoTable ⊎ EndsWith target missing

  -- How a lookup in the world `w` ends.
  pub data Looked (target : List ℕ) (w : World) : Run ℕ → Type 0 where
    at : (a : ℕ) → EndsWith target (found a) → Looked target w (ok a w)
    nowhere : EndsWith target missing → Looked target w (fail w)
    no_table :
        HasNoTable
        → Looked target w (
            fail (record w {
              trace =
                  printed "sel4cp_internal_get_symbol: failed to find the symbol table\n" ∷ w.trace;
            }))

  first_table :
      (o : Option ℕ)
      → IsFirstSymbolTable m src (elf_header m src).e_shnum 0 o
      → (HasNoTable × (o ≡ none))
        ⊎ ((k : ℕ) × IsFirstTable k × (o ≡ some (section_header_at m src k)))
  first_table none others =
      inl ((λ j lt. subst (λ i. ¬ IsSymbolTable m src i) (omega arith) (others j lt)), refl)
  first_table (some a) (k, lt, place, is_table, others) =
      let at_k : 0 + k ≡ k = omega arith in
      inr (
        k,
        record {
          below = lt;
          is_table = subst (IsSymbolTable m src) at_k is_table;
          others = λ j less. subst (λ i. ¬ IsSymbolTable m src i) (omega arith) (others j less);
        },
        rw (place, at_k) refl,
      )

module _ (e : Env) (w : World) (src : ℕ) (target : List ℕ) where
  searched :
      (k : ℕ)
      → IsFirstTable e.memory src k
      → (s : Search)
      → IsFirstNamed e.memory target
          (strings_of e.memory src (section_header_at e.memory src k))
          (src + (elf_section_header e.memory (section_header_at e.memory src k)).sh_offset)
          (src
            + (elf_section_header e.memory (section_header_at e.memory src k)).sh_offset
            + (elf_section_header e.memory (section_header_at e.memory src k)).sh_size)
          s
      → Looked e.memory src target w (search_result s e w)
  unfolding pure failure
  searched k first (found a) h = at a (k, first, h)
  searched k first missing h = nowhere (k, first, h)
  searched k first unfinished h = absurd h

  -- The lookup of a name without zero bytes ends, whatever the memory holds, and changes nothing but
  -- for a message: it returns the first entry of that name in the first section of type SHT_SYMTAB;
  -- it fails if no entry there has the name, or if no section has that type.
  pub get_symbol-Looked : NoNul target → Looked e.memory src target w (get_symbol src target e w)
  unfolding get_symbol emit failure ◌>>=◌
  get_symbol-Looked valid =
      elim (first_table e.memory src _
        (find_symbol_table-IsFirstSymbolTable e.memory src (elf_header e.memory src).e_shnum 0)) [
          | inl (nothing, is) ↦ rw is (no_table nothing)
          | inr (k, first, is) ↦ rw is (
              searched k first _ (
                search_table-IsFirstNamed e.memory src target (section_header_at e.memory src k)
                  valid))
        ]
