-- ===== src/Tests/Elves.antt =====
-- An ELF file with one segment, two symbols and two access rights, in memory at 0x1000.
use se_l4cp_poc.Prelude.{ℕ, ◌-◌, ◌/◌, ◌%◌, ◌^◌, List, [], ◌∷◌, ◌++◌, get_or, ltb, if◌then◌else◌}
use se_l4cp_poc.Machine.State.{Memory, initial_alloc_state, World, Env}
use se_l4cp_poc.Elf.{bytes_of}
use se_l4cp_poc.Rights.Table.{AccessRight, channel, protection_domain_control, bytes64, encode_all}

abbrev bytes16 : ℕ → List ℕ
bytes16 n = n % 2 ^ 8 ∷ n / 2 ^ 8 % 2 ^ 8 ∷ []

abbrev bytes32 : ℕ → List ℕ
bytes32 n = bytes16 (n % 2 ^ 16) ++ bytes16 (n / 2 ^ 16)

-- The access rights, and their table at offset 0x200.
abbrev pub demo_rights : List AccessRight
demo_rights = channel 3 1 2 ∷ protection_domain_control ∷ []

abbrev demo_ident : List ℕ
demo_ident = 0x7f ∷ 0x45 ∷ 0x4c ∷ 0x46 ∷ 2 ∷ 1 ∷ 1 ∷ 0 ∷ 0 ∷ 0x00 ∷ 0x02 ∷ 0 ∷ 0 ∷ 0 ∷ 0 ∷ 0 ∷ []

abbrev demo_header : List ℕ
demo_header =
    demo_ident
    ++ bytes16 2
    ++ bytes16 183
    ++ bytes32 1
    ++ bytes64 0x200000
    ++ bytes64 0x40
    ++ bytes64 0x78
    ++ bytes32 0
    ++ bytes16 64
    ++ bytes16 56
    ++ bytes16 1
    ++ bytes16 64
    ++ bytes16 2
    ++ bytes16 1

-- Six bytes of the file and two zeros, at 0x200ffc, so across the end of a page.
abbrev demo_program_header : List ℕ
demo_program_header =
    bytes32 1
    ++ bytes32 6
    ++ bytes64 0x220
    ++ bytes64 0x200ffc
    ++ bytes64 0
    ++ bytes64 6
    ++ bytes64 8
    ++ bytes64 0x1000

abbrev section_header : (type offset size link : ℕ) → List ℕ
section_header type offset size link =
    bytes32 0
    ++ bytes32 type
    ++ bytes64 0
    ++ bytes64 0
    ++ bytes64 offset
    ++ bytes64 size
    ++ bytes32 link
    ++ bytes32 0
    ++ bytes64 0
    ++ bytes64 0

abbrev symbol : (name value : ℕ) → List ℕ
symbol name value = bytes32 name ++ bytes32 0 ++ bytes64 value ++ bytes64 0

-- At 0x78, 0xf8 and 0x128.
abbrev demo_sections : List ℕ
demo_sections = section_header 2 0xf8 48 1 ++ section_header 3 0x128 43 0

abbrev demo_symbols : List ℕ
demo_symbols = symbol 0 0x200ffc ++ symbol 21 0x202000

abbrev demo_strings : List ℕ
demo_strings = bytes_of "sel4cp_current_pd_id" ++ 0 ∷ bytes_of "__sel4_ipc_buffer_obj" ++ 0 ∷ []

abbrev demo_file : List ℕ
demo_file = demo_header ++ demo_program_header ++ demo_sections ++ demo_symbols ++ demo_strings

abbrev demo_table : List ℕ
demo_table = bytes64 2 ++ encode_all demo_rights

abbrev demo_segment : List ℕ
demo_segment = 10 ∷ 11 ∷ 12 ∷ 13 ∷ 14 ∷ 15 ∷ []

abbrev pub demo_memory : Memory
demo_memory a =
    if ltb a 0x1200
    then get_or demo_file (a - 0x1000) 0
    else if ltb a 0x1220
    then get_or demo_table (a - 0x1200) 0
    else get_or demo_segment (a - 0x1220) 0

abbrev pub demo_env : Env
demo_env = record {
  memory = demo_memory;
  current_pd_id = 0;
  ipc_buffer = 0x100000;
  elf_buffer = 0x300000;
  uart_base_vaddr = 0x2000000;
  test_region_vaddr = 0x5000000;
  kernel = λ trace call. 0;
  device = λ trace addr. 0;
  undefined_shift = λ n. 0;
  overrun = λ addr value s. s;
  message_registers = λ trace mr. 0;
}

abbrev pub demo_world : World
demo_world = record {
  alloc_state = initial_alloc_state;
  memory = demo_memory;
  loader = record {
    elf_current_vaddr = 0x300000;
    elf_size = 0;
    size_buffer = λ i. 0;
    size_buffer_idx = 0;
  };
  trace = [];
}
