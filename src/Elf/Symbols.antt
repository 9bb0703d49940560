-- ===== src/Elf/Symbols.antt =====
-- The search of a symbol table in `sel4cp_internal_get_symbol`, against the first entry of the
-- name.
use mathlib.Core.Bool.{false≢true}
use se_l4cp_poc.Prelude.{
  ℕ, zero, suc, ◌+◌, ◌*◌, ◌/◌, ◌≤◌, ◌<◌, ◌≡◌, refl, subst, ◌≢◌, inl, inr, Bool, true, false, not,
  ◌&&◌, ◌==◌, Option, some, List, [], ◌∷◌, arith, ltb, ltb→lt, ltb-false, ltb_false→le, Bool-cases,
  length, get_or,
}
use se_l4cp_poc.Prelude.Words.{u32}
use se_l4cp_poc.Machine.State.{Memory}
use se_l4cp_poc.Elf.{
  literal, string_at, are_equal, Search, found, missing, unfinished, scan_symbols,
  sizeof_elf_symbol_table_entry, elf_symbol_table_entry, elf_section_header, search_table,
  elf_header,
}
use se_l4cp_poc.Elf.Strings.{IsTerminated, Decides, are_equal-decides}

-- A list of bytes that a C string can hold.
abbrev pub NoNul : List ℕ → Type 0
NoNul [] = Unit {0}
NoNul (c ∷ cs) = (c ≢ 0) × NoNul cs

abbrev pub no_zero : List ℕ → Bool
no_zero [] = true
no_zero (c ∷ cs) = not (c == 0) && no_zero cs

pub NoNul-of : (cs : List ℕ) → no_zero cs ≡ true → NoNul cs
NoNul-of [] h = tt
NoNul-of (c ∷ cs) h = (ground arith, NoNul-of cs (ground arith))

bytes-ne-zero : (cs : List ℕ) → NoNul cs → (i : ℕ) → i < length cs → get_or cs i 0 ≢ 0
bytes-ne-zero [] h i lt = absurd (omega arith)
bytes-ne-zero (c ∷ cs) h zero lt = h.0
bytes-ne-zero (c ∷ cs) h (suc i) lt = bytes-ne-zero cs h.1 i (omega arith)

after_bytes : (cs : List ℕ) → get_or cs (length cs) 0 ≡ 0
after_bytes [] = refl
after_bytes (c ∷ cs) = after_bytes cs

pub NoNul-IsTerminated : (cs : List ℕ) → NoNul cs → IsTerminated (literal cs) (length cs)
NoNul-IsTerminated cs h = (after_bytes cs, bytes-ne-zero cs h)

module _ (m : Memory) (target : List ℕ) (strings : ℕ) where
  -- The entry at `a` is named `target`, its terminator included.
  abbrev pub IsNamed : ℕ → Type 0
  IsNamed a =
      (i : ℕ)
      → i ≤ length target
      → literal target i ≡ string_at m (strings + (elf_symbol_table_entry m a).st_name) i

  -- What a search of the table from `entry` up to `end` should end with.
  abbrev pub IsFirstNamed : (entry end : ℕ) → Search → Type 0
  IsFirstNamed entry end (found a) =
      (k : ℕ) × (a ≡ entry + k * sizeof_elf_symbol_table_entry)
      × (a < end)
      × IsNamed a
      × ((j : ℕ) → j < k → ¬ IsNamed (entry + j * sizeof_elf_symbol_table_entry))
  IsFirstNamed entry end missing =
      (j : ℕ)
      → entry + j * sizeof_elf_symbol_table_entry < end
      → ¬ IsNamed (entry + j * sizeof_elf_symbol_table_entry)
  IsFirstNamed entry end unfinished = ⊥

  compared : ℕ → Option Bool
  compared a =
      are_equal (length target + 1) (some (literal target))
        (some (string_at m (strings + (elf_symbol_table_entry m a).st_name)))

  compared-decides : NoNul target → (a : ℕ) → Decides (compared a) (IsNamed a)
  unfolding compared
  compared-decides h a =
      are_equal-decides (literal target)
        (string_at m (strings + (elf_symbol_table_entry m a).st_name)) (length target)
        (NoNul-IsTerminated target h)

  module _ (fuel entry end : ℕ) where
    past_end : ltb entry end ≡ false → scan_symbols (suc fuel) m target strings entry end ≡ missing
    unfolding scan_symbols
    past_end h = ground arith

    hit :
        ltb entry end ≡ true
        → compared entry ≡ some true
        → scan_symbols (suc fuel) m target strings entry end ≡ found entry
    unfolding scan_symbols compared
    hit h c = ground arith

    skip :
        ltb entry end ≡ true
        → compared entry ≡ some false
        → scan_symbols (suc fuel) m target strings entry end
          ≡ scan_symbols fuel m target strings (entry + sizeof_elf_symbol_table_entry) end
    unfolding scan_symbols compared
    skip h c = ground arith

  -- The entry before the table does not have the name, so the first one in it is the first of both.
  IsFirstNamed-step :
      (entry end : ℕ) (s : Search)
      → ¬ IsNamed entry
      → IsFirstNamed (entry + sizeof_elf_symbol_table_entry) end s
      → IsFirstNamed entry end s
  IsFirstNamed-step entry end (found a) not_here (k, place, below, named, others) =
      (k + 1, omega arith, below, named, earlier)
    where
      earlier : (j : ℕ) → j < k + 1 → ¬ IsNamed (entry + j * sizeof_elf_symbol_table_entry)
      earlier zero lt n = not_here (subst IsNamed (omega arith) n)
      earlier (suc j) lt n = others j (omega arith) (subst IsNamed (omega arith) n)
  IsFirstNamed-step entry end missing not_here others = all
    where
      all :
          (j : ℕ)
          → entry + j * sizeof_elf_symbol_table_entry < end
          → ¬ IsNamed (entry + j * sizeof_elf_symbol_table_entry)
      all zero lt n = not_here (subst IsNamed (omega arith) n)
      all (suc j) lt n = others j (omega arith) (subst IsNamed (omega arith) n)
  IsFirstNamed-step entry end unfinished not_here h = h

  compare_entry :
      (fuel entry end : ℕ)
      → ltb entry end ≡ true
      → Decides (compared entry) (IsNamed entry)
      → IsFirstNamed
          (entry + sizeof_elf_symbol_table_entry)
          end
          (scan_symbols fuel m target strings (entry + sizeof_elf_symbol_table_entry) end)
      → IsFirstNamed entry end (scan_symbols (suc fuel) m target strings entry end)
  compare_entry fuel entry end inside (true, run, decide) rest =
      rw (hit fuel entry end inside run)
        (0, omega arith, ltb→lt entry end inside, decide.0 refl, λ j lt. absurd (omega arith))
  compare_entry fuel entry end inside (false, run, decide) rest =
      rw (skip fuel entry end inside run)
        (IsFirstNamed-step entry end _ (λ n. false≢true (decide.1 n)) rest)

  -- With a round for each entry and one more, the scan ends with the first entry of the name.
  scan_symbols-IsFirstNamed :
      NoNul target
      → (f entry end : ℕ) → end ≤ entry + f * sizeof_elf_symbol_table_entry
      → IsFirstNamed entry end (scan_symbols (suc f) m target strings entry end)
  scan_symbols-IsFirstNamed h zero entry end enough =
      rw (past_end 0 entry end (ltb-false entry end (omega arith))) (λ j lt. absurd (omega arith))
  scan_symbols-IsFirstNamed h (suc f) entry end enough = elim (Bool-cases (ltb entry end)) [
    | inl inside ↦
        compare_entry (suc f) entry end inside (compared-decides h entry)
          (scan_symbols-IsFirstNamed h f (entry + sizeof_elf_symbol_table_entry) end (omega arith))
    | inr outside ↦
        rw (past_end (suc f) entry end outside)
          (λ j lt. absurd (omega (arith, ltb_false→le entry end outside)))
  ]

-- The string table that goes with the symbol table of section header `table`.
abbrev pub strings_of : Memory → ℕ → ℕ → ℕ
strings_of m src table =
    src
    + (elf_section_header m (
        src
        + (elf_header m src).e_shoff
        + u32 ((elf_section_header m table).sh_link * (elf_header m src).e_shentsize))).sh_offset

-- The search of a symbol table ends, whatever the memory holds: with the first entry between the
-- table's start and end whose name in the associated string table is the target, or, if no entry
-- has that name, with none.
pub search_table-IsFirstNamed :
    (m : Memory) (src : ℕ) (target : List ℕ) (table : ℕ)
    → NoNul target
    → IsFirstNamed m target
        (strings_of m src table)
        (src + (elf_section_header m table).sh_offset)
        (src + (elf_section_header m table).sh_offset + (elf_section_header m table).sh_size)
        (search_table m src target table)
unfolding search_table
search_table-IsFirstNamed m src target table h =
    let fuel : (elf_section_header m table).sh_size / sizeof_elf_symbol_table_entry + 2
        ≡ suc ((elf_section_header m table).sh_size / sizeof_elf_symbol_table_entry + 1) =
      omega arith in
    rw fuel (
      scan_symbols-IsFirstNamed m target (strings_of m src table) h
        ((elf_section_header m table).sh_size / sizeof_elf_symbol_table_entry + 1) _ _
        (omega arith))
