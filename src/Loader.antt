-- ===== src/Loader.antt =====
-- elf_loader.h: the size and the bytes of an ELF file, received a character at a time.
pub mod Hex
pub mod Receive
pub mod Size
pub mod Transfer
pub mod Invariant
pub mod Tracks
pub mod Answers
use se_l4cp_poc.Prelude.{
  ℕ, zero, suc, ◌+◌, ◌-◌, ◌*◌, Bool, true, false, ◌&&◌, Option, none, some, leb, ltb, ◌==◌,
  if◌then◌else◌,
}
use se_l4cp_poc.Prelude.Words.{u8, u64}
use se_l4cp_poc.Machine.State.{World, Env, LoaderState}
use se_l4cp_poc.Machine.Run.{
  Prog, ok, ◌>>=◌, ◌>>◌, pure, ask, gets, dbg_puts, dbg_puthex64, set_loader, shift_one,
}

abbrev pub elf_buffer_size : ℕ
elf_buffer_size = 0x50000

-- The value of a digit; `none` for a character that is none.
unfoldable pub digit_value : ℕ → Option ℕ
digit_value digit =
    if leb b'0' digit && leb digit b'9'
    then some (digit - b'0')
    else if leb b'a' digit && leb digit b'f'
    then some (digit - b'a' + 10)
    else if leb b'A' digit && leb digit b'F'
    then some (digit - b'A' + 10)
    else none

-- The loop of `elf_loader_parse_hex64`, with `n` rounds left, so at `i = n - 1`. The weight is
-- computed at type int: `shift` is `1 << k`.
unfoldable pub parse_hex64_from : ℕ → (shift digits : ℕ → ℕ) → (num_digits result : ℕ) → Prog ℕ
parse_hex64_from zero shift digits num_digits result = pure result
parse_hex64_from (suc i) shift digits num_digits result = elim (digit_value (digits i)) [
  | none ↦ do dbg_puts "elf_loader: invalid hexadecimal digit encountered!\n"; pure 0
  | some value ↦
      parse_hex64_from i shift digits num_digits
        (u64 (result + value * shift (4 * (num_digits - 1 - i))))
]

unfoldable pub parse_hex64 : (digits : ℕ → ℕ) → (num_digits : ℕ) → Prog ℕ
parse_hex64 digits num_digits = do
  shift ← ask shift_one
  parse_hex64_from num_digits shift digits num_digits 0

abbrev pub put : (ℕ → ℕ) → ℕ → ℕ → ℕ → ℕ
put f i v k = if k == i then v else f k

-- `elf_size = ...; size_buffer_idx = 0;` and the check of the size. NULL is returned either way.
unfoldable pub finish_size : Prog ℕ
finish_size = do
  s ← gets (λ w. w.loader)
  elf_size ← parse_hex64 s.size_buffer s.size_buffer_idx
  set_loader (λ l. record l { elf_size = elf_size; size_buffer_idx = 0 })
  if ltb elf_buffer_size elf_size
      then (do
        dbg_puts "elf_loader: cannot read ELF files larger than "
        dbg_puthex64 elf_buffer_size
        dbg_puts " bytes\n"
        pure 0)
      else pure 0

-- A character of the size: `if (elf_size == 0) { ... }`.
unfoldable pub handle_size_input : ℕ → Prog ℕ
handle_size_input c = do
  s ← gets (λ w. w.loader)
  if c == b'\n'
      then finish_size
      else if leb 16 s.size_buffer_idx
      then (do
        dbg_puts
            "elf_loader: the size of an ELF file can not be larger than 64 bytes (16 hexadecimal digits)\n"
        pure 0)
      else (do
        set_loader λ l. record l {
          size_buffer = put l.size_buffer l.size_buffer_idx c;
          size_buffer_idx = u8 (l.size_buffer_idx + 1);
        }
        pure 0)

-- `*elf_current_vaddr = c;`: outside of `elf_buffer`, the store can change any static variable.
abbrev pub is_inside : Env → ℕ → Bool
is_inside e addr = leb e.elf_buffer addr && ltb addr (e.elf_buffer + elf_buffer_size)

unfoldable pub store_byte : (c : ℕ) → Env → World → World
store_byte c e w =
    let addr = w.loader.elf_current_vaddr in
    let stored = record w { memory = put w.memory addr c } in
    let statics = e.overrun addr c (w.alloc_state, w.loader) in
    if is_inside e addr
    then stored
    else record stored { alloc_state = statics.0; loader = statics.1 }

-- `elf_current_vaddr++;`, and the end of the file.
unfoldable pub advance : Prog ℕ
advance e w =
    let next = w.loader.elf_current_vaddr + 1 in
    if leb w.loader.elf_size (next - e.elf_buffer)
    then ok e.elf_buffer
        (record w { loader = record w.loader { elf_current_vaddr = e.elf_buffer; elf_size = 0 } })
    else ok 0 (record w { loader = record w.loader { elf_current_vaddr = next } })

-- A byte of the file.
unfoldable pub handle_file_input : ℕ → Prog ℕ
handle_file_input c e w = advance e (store_byte c e w)

-- `elf_loader_handle_input`: the address of the loaded file, or 0 for NULL.
unfoldable pub handle_input : ℕ → Prog ℕ
handle_input c = do
  s ← gets (λ w. w.loader)
  if s.elf_size == 0 then handle_size_input c else handle_file_input c
