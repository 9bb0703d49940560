-- ===== src/Elf.antt =====
-- The ELF structures of sel4cp.h as they lie in memory, `sel4cp_internal_are_equal` and
-- `sel4cp_internal_get_symbol`. Pointers are addresses; 0 is NULL.
pub mod Strings
pub mod Sections
pub mod Symbols
pub mod Lookup
pub mod Reasons
use Prim.Native.Char.{code}
use Prim.Native.String
use se_l4cp_poc.Prelude.{
  ℕ, zero, suc, ◌+◌, ◌*◌, ◌/◌, ◌%◌, ◌^◌, Bool, true, false, not, ◌&&◌, Option, none, some, String,
  List, [], ◌∷◌, ltb, ◌==◌, if◌then◌else◌, length, get_or,
}
use se_l4cp_poc.Prelude.Words.{u32}
use se_l4cp_poc.Layout.{sht_symtab}
use se_l4cp_poc.Machine.State.{Memory, Env}
use se_l4cp_poc.Machine.Run.{Prog, ok, ◌>>=◌, ◌>>◌, pure, failure, exhausted, ask, dbg_puts}

-- Reads of little-endian words.
unfoldable pub load8 : Memory → ℕ → ℕ
load8 m a = m a % 2 ^ 8

unfoldable pub load16 : Memory → ℕ → ℕ
load16 m a = load8 m a + 2 ^ 8 * load8 m (a + 1)

unfoldable pub load32 : Memory → ℕ → ℕ
load32 m a = load16 m a + 2 ^ 16 * load16 m (a + 2)

unfoldable pub load64 : Memory → ℕ → ℕ
load64 m a = load32 m a + 2 ^ 32 * load32 m (a + 4)

-- `elf_header`
pub record ElfHeader : Type 0 where
  pub e_ident : ℕ → ℕ
  pub e_type : ℕ
  pub e_machine : ℕ
  pub e_version : ℕ
  pub e_entry : ℕ
  pub e_phoff : ℕ
  pub e_shoff : ℕ
  pub e_flags : ℕ
  pub e_ehsize : ℕ
  pub e_phentsize : ℕ
  pub e_phnum : ℕ
  pub e_shentsize : ℕ
  pub e_shnum : ℕ
  pub e_shstrndx : ℕ

unfoldable pub elf_header : Memory → ℕ → ElfHeader
elf_header m src = record {
  e_ident = λ i. load8 m (src + i);
  e_type = load16 m (src + 16);
  e_machine = load16 m (src + 18);
  e_version = load32 m (src + 20);
  e_entry = load64 m (src + 24);
  e_phoff = load64 m (src + 32);
  e_shoff = load64 m (src + 40);
  e_flags = load32 m (src + 48);
  e_ehsize = load16 m (src + 52);
  e_phentsize = load16 m (src + 54);
  e_phnum = load16 m (src + 56);
  e_shentsize = load16 m (src + 58);
  e_shnum = load16 m (src + 60);
  e_shstrndx = load16 m (src + 62);
}

-- `elf_program_header`
pub record ElfProgramHeader : Type 0 where
  pub p_type : ℕ
  pub p_flags : ℕ
  pub p_offset : ℕ
  pub p_vaddr : ℕ
  pub p_paddr : ℕ
  pub p_filesz : ℕ
  pub p_memsz : ℕ
  pub p_align : ℕ

unfoldable pub elf_program_header : Memory → ℕ → ElfProgramHeader
elf_program_header m a = record {
  p_type = load32 m a;
  p_flags = load32 m (a + 4);
  p_offset = load64 m (a + 8);
  p_vaddr = load64 m (a + 16);
  p_paddr = load64 m (a + 24);
  p_filesz = load64 m (a + 32);
  p_memsz = load64 m (a + 40);
  p_align = load64 m (a + 48);
}

-- `elf_section_header`
pub record ElfSectionHeader : Type 0 where
  pub sh_name : ℕ
  pub sh_type : ℕ
  pub sh_flags : ℕ
  pub sh_addr : ℕ
  pub sh_offset : ℕ
  pub sh_size : ℕ
  pub sh_link : ℕ
  pub sh_info : ℕ
  pub sh_addralign : ℕ
  pub sh_entsize : ℕ

unfoldable pub elf_section_header : Memory → ℕ → ElfSectionHeader
elf_section_header m a = record {
  sh_name = load32 m a;
  sh_type = load32 m (a + 4);
  sh_flags = load64 m (a + 8);
  sh_addr = load64 m (a + 16);
  sh_offset = load64 m (a + 24);
  sh_size = load64 m (a + 32);
  sh_link = load32 m (a + 40);
  sh_info = load32 m (a + 44);
  sh_addralign = load64 m (a + 48);
  sh_entsize = load64 m (a + 56);
}

-- `elf_symbol_table_entry`, and `sizeof`
pub record ElfSymbolTableEntry : Type 0 where
  pub st_name : ℕ
  pub st_info : ℕ
  pub st_other : ℕ
  pub st_shndx : ℕ
  pub st_value : ℕ
  pub st_size : ℕ

unfoldable pub elf_symbol_table_entry : Memory → ℕ → ElfSymbolTableEntry
elf_symbol_table_entry m a = record {
  st_name = load32 m a;
  st_info = load8 m (a + 4);
  st_other = load8 m (a + 5);
  st_shndx = load16 m (a + 6);
  st_value = load64 m (a + 8);
  st_size = load64 m (a + 16);
}

abbrev pub sizeof_elf_symbol_table_entry : ℕ
sizeof_elf_symbol_table_entry = 24

-- What a `char *` points to: the byte at each distance from it.
abbrev pub CString : Type 0
CString = ℕ → ℕ

abbrev pub string_at : Memory → ℕ → CString
string_at m a i = load8 m (a + i)

-- A string literal: its bytes, then zeros, of which only the first is read.
abbrev pub literal : List ℕ → CString
literal bytes i = get_or bytes i 0

-- The loop of `sel4cp_internal_are_equal` from the `i`th byte on; `none` if the rounds are used up.
unfoldable pub are_equal_from : ℕ → CString → CString → ℕ → Option Bool
are_equal_from zero a b i = none
are_equal_from (suc k) a b i = elim (not (a i == 0) && not (b i == 0)) [
  | true ↦ elim (a i == b i) [ true ↦ are_equal_from k a b (i + 1) | false ↦ some false ]
  | false ↦ some ((a i == 0) && (b i == 0))
]

-- `sel4cp_internal_are_equal`; a NULL argument is `none`. The rounds are bounded by a length of
-- `a`.
unfoldable pub are_equal : ℕ → Option CString → Option CString → Option Bool
unfolding are_equal_from
are_equal k none b = some false
are_equal k (some a) none = some false
are_equal k (some a) (some b) = are_equal_from k a b 0

-- The address of section header `i`. `i * e_shentsize` is computed at 64 bits.
abbrev pub section_header_at : Memory → ℕ → ℕ → ℕ
section_header_at m src i = src + (elf_header m src).e_shoff + i * (elf_header m src).e_shentsize

-- The first `for` loop of `sel4cp_internal_get_symbol`, with `n` rounds left from section `i`.
unfoldable pub find_symbol_table : ℕ → Memory → ℕ → ℕ → Option ℕ
find_symbol_table zero m src i = none
find_symbol_table (suc n) m src i =
    elim ((elf_section_header m (section_header_at m src i)).sh_type == sht_symtab) [
      | true ↦ some (section_header_at m src i)
      | false ↦ find_symbol_table n m src (i + 1)
    ]

-- What a search ends with.
pub data Search : Type 0 where
  found : ℕ → Search
  missing : Search
  unfinished : Search

-- The `while` loop of `sel4cp_internal_get_symbol` over the entries from `entry` up to `end`, the
-- names being offsets into `strings`. `fuel` bounds the rounds.
unfoldable pub scan_symbols : ℕ → Memory → (target : List ℕ) → (strings entry end : ℕ) → Search
unfolding are_equal
scan_symbols zero m target strings entry end = unfinished
scan_symbols (suc fuel) m target strings entry end =
    let rest = scan_symbols fuel m target strings (entry + sizeof_elf_symbol_table_entry) end in
    elim (ltb entry end) [
      | false ↦ missing
      | true ↦
          elim (are_equal (length target + 1) (some (literal target))
            (some (string_at m (strings + (elf_symbol_table_entry m entry).st_name)))) [
              | none ↦ unfinished
              | some true ↦ found entry
              | some false ↦ rest
            ]
    ]

-- The symbol table in section header `table`, with its string table. `sh_link * e_shentsize` is
-- computed at 32 bits.
unfoldable pub search_table : Memory → ℕ → List ℕ → ℕ → Search
unfolding scan_symbols
search_table m src target table =
    let hdr = elf_section_header m table in
    let strings_hdr =
      src + (elf_header m src).e_shoff + u32 (hdr.sh_link * (elf_header m src).e_shentsize) in
    scan_symbols (hdr.sh_size / sizeof_elf_symbol_table_entry + 2) m target
      (src + (elf_section_header m strings_hdr).sh_offset) (src + hdr.sh_offset)
      (src + hdr.sh_offset + hdr.sh_size)

abbrev pub search_result : Search → Prog ℕ
search_result (found entry) = pure entry
search_result missing = failure
search_result unfinished = exhausted

abbrev pub search_symbol_table : Memory → ℕ → List ℕ → Option ℕ → Prog ℕ
search_symbol_table m src target none =
    dbg_puts "sel4cp_internal_get_symbol: failed to find the symbol table\n" >> failure
search_symbol_table m src target (some table) = search_result (search_table m src target table)

-- The bytes of a literal of the source.
abbrev pub bytes_of : String → List ℕ
bytes_of String.[] = []
bytes_of (String.◌∷◌ c s) = code c ∷ bytes_of s

-- `sel4cp_internal_get_symbol`
unfoldable pub get_symbol : ℕ → List ℕ → Prog ℕ
get_symbol src target_symbol_name = do
  m ← ask (λ e. e.memory)
  search_symbol_table m src target_symbol_name
      (find_symbol_table (elf_header m src).e_shnum m src 0)
