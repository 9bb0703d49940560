-- ===== src/Tests/Witnesses.antt =====
-- The theorems that have conditions, at inputs that meet them.
use se_l4cp_poc.Prelude.{
  ℕ, zero, suc, ◌+◌, ◌≤◌, ◌<◌, ◌≡◌, ◌⊎◌, refl, ◌∙◌, true, some, List, [], ◌∷◌, ◌++◌, length, get_or,
  arith, ==_refl,
}
use se_l4cp_poc.Machine.Halts.{HasEnded}
use se_l4cp_poc.Load.Ends.{HasSizes, header_at}
use se_l4cp_poc.Create.Ends.{pd_create-HasEnded}
use se_l4cp_poc.Layout.{pt_load, pages, cnodes, pool_num}
use se_l4cp_poc.Layout.Slots.{pooled, index_injective}
use se_l4cp_poc.Machine.State.{Memory, World, stored8, stored32, printed, printed_hex64}
use se_l4cp_poc.Machine.Run.{ok, final}
use se_l4cp_poc.Machine.Evolves.{Goes}
use se_l4cp_poc.Machine.Bounds.{IsBounded}
use se_l4cp_poc.Elf.{
  elf_header, elf_program_header, load64, load32, load16, load8, bytes_of, literal, are_equal,
  find_symbol_table, search_table, elf_section_header,
}
use se_l4cp_poc.Elf.Strings.{Decides, are_equal-decides}
use se_l4cp_poc.Elf.Sections.{IsFirstSymbolTable, find_symbol_table-IsFirstSymbolTable}
use se_l4cp_poc.Elf.Symbols.{
  NoNul-of, IsFirstNamed, strings_of, NoNul-IsTerminated, search_table-IsFirstNamed,
}
use se_l4cp_poc.Rights.{set_up_access_rights_from, has_protection_domain_control_access_right}
use se_l4cp_poc.Rights.Table.{Holds, encode_all}
use se_l4cp_poc.Rights.Parse.{apply_rights, set_up_access_rights_from-apply_rights}
use se_l4cp_poc.Rights.Control.{IsPatched, has_protection_domain_control_access_right-any_control}
use se_l4cp_poc.Load.{load_segments, Cursor, write_bytes}
use se_l4cp_poc.Load.Image.{StoresImage, stores, image}
use se_l4cp_poc.Load.Segment.{write_bytes-StoresImage}
use se_l4cp_poc.Load.Window.{InWindow, load_segments-InWindow}
use se_l4cp_poc.Create.{pd_create}
use se_l4cp_poc.Create.Bounds.{pd_create-IsBounded}
use se_l4cp_poc.Create.Count.{create_all, create_all-le-pool_num}
use se_l4cp_poc.Loader.{put, digit_value, elf_buffer_size}
use se_l4cp_poc.Loader.Hex.{value}
use se_l4cp_poc.Loader.Receive.{feed, zeros, answers, write_all, write_all_before}
use se_l4cp_poc.Loader.Size.{AreDigits, horner}
use se_l4cp_poc.Loader.Transfer.{
  IsIdle, delivered, delivering, handle_input-receives, handle_input-overflows,
}
use se_l4cp_poc.Loader.{handle_input}
use se_l4cp_poc.Loader.Invariant.{IsReceiving, Receives, handle_input-Receives}
use se_l4cp_poc.Domains.Root
use se_l4cp_poc.Domains.Child
use se_l4cp_poc.Domains.Keeps.{IsSafe, IsReady}
use se_l4cp_poc.Domains.Safety.{Overlong, notify_all, notified-IsSafe}
use se_l4cp_poc.Kernel.{message_info_get_length}
use se_l4cp_poc.Api.{msginfo_new, msginfo_get_label}
use se_l4cp_poc.Api.MessageInfo.{msginfo_get_label-msginfo_new}
use se_l4cp_poc.Paging.{allocate_page}
use se_l4cp_poc.Paging.Fresh.{HandsOut, allocate_page-HandsOut}
use se_l4cp_poc.Uart.{uart_put_str}
use se_l4cp_poc.Uart.Output.{written, Leaves, string_sent, uart_put_str-string_sent}
use se_l4cp_poc.Tests.Elves.{demo_memory, demo_rights, demo_env, demo_world}

Holds-write_all : (m : Memory) (a : ℕ) (bs : List ℕ) → Holds (write_all m a bs) a bs
unfolding write_all
Holds-write_all m a [] = tt
Holds-write_all m a (b ∷ bs) = (
  write_all_before (put m a b) (a + 1) bs a (omega arith) ∙ rw (==_refl a) refl,
  Holds-write_all (put m a b) (a + 1) bs,
)

initial_bounds : IsBounded demo_world.alloc_state
initial_bounds = record {
  tcb = omega arith;
  notification = omega arith;
  cnode = omega arith;
  schedcontext = omega arith;
  vspace = omega arith;
  page_upper_directory = omega arith;
  page_directory = omega arith;
  page_table = omega arith;
  page = omega arith;
}

initial-IsIdle : IsIdle demo_env demo_world
initial-IsIdle = record { no_size = refl; no_digit = refl; at_start = refl }

abbrev name : List ℕ
name = bytes_of "sel4cp_current_pd_id"

-- The memory with the entries of the access right table at 0x4000.
abbrev table_memory : Memory
table_memory = write_all demo_memory 0x4000 (encode_all demo_rights)

pd_create-IsBounded_example : IsBounded (final (pd_create 1 0x1000 demo_env demo_world)).alloc_state
pd_create-IsBounded_example = pd_create-IsBounded demo_env demo_world 1 0x1000 initial_bounds

set_up_access_rights_from-apply_rights_example :
    set_up_access_rights_from 2 table_memory 1 0x4000 757 ≡ apply_rights 1 757 demo_rights
set_up_access_rights_from-apply_rights_example =
    set_up_access_rights_from-apply_rights table_memory 1 0x4000 757 demo_rights
      ((omega arith, omega arith, omega arith), (tt, tt))
      (Holds-write_all demo_memory 0x4000 (encode_all demo_rights))

-- The table stands behind the file.
demo-IsPatched : IsPatched demo_memory 0x1000 0x200 demo_rights
demo-IsPatched = (
  omega arith,
  omega arith,
  (refl, (refl, (refl, (refl, (refl, (refl, (refl, tt))))))),
  (refl, (refl, (refl, (refl, (refl, (refl, (refl, (refl, tt)))))))),
  (refl, (refl, (refl, (refl, (refl, tt))))),
)

has_protection_domain_control_access_right-any_control_example :
    has_protection_domain_control_access_right 0x1000 demo_env demo_world ≡ ok true demo_world
has_protection_domain_control_access_right-any_control_example =
    has_protection_domain_control_access_right-any_control demo_env demo_world 0x1000 0x200
      demo_rights demo-IsPatched

load_segments-InWindow_example :
    Goes (InWindow demo_env) demo_env (load_segments 1 demo_memory 0x1000 0x200ffc 1 0)
load_segments-InWindow_example =
    load_segments-InWindow {e = demo_env} 0x200ffc 1 refl 1 demo_memory 0x1000 0

find_symbol_table-IsFirstSymbolTable_example :
    IsFirstSymbolTable demo_memory 0x1000 2 0 (find_symbol_table 2 demo_memory 0x1000 0)
find_symbol_table-IsFirstSymbolTable_example =
    find_symbol_table-IsFirstSymbolTable demo_memory 0x1000 2 0

search_table-IsFirstNamed_example :
    IsFirstNamed demo_memory name
      (strings_of demo_memory 0x1000 0x1078)
      (0x1000 + (elf_section_header demo_memory 0x1078).sh_offset)
      (0x1000
        + (elf_section_header demo_memory 0x1078).sh_offset
        + (elf_section_header demo_memory 0x1078).sh_size)
      (search_table demo_memory 0x1000 name 0x1078)
search_table-IsFirstNamed_example =
    search_table-IsFirstNamed demo_memory 0x1000 name 0x1078 (NoNul-of name refl)

are_equal-decides_example :
    Decides
      (are_equal (20 + 1) (some (literal name)) (some (literal (bytes_of "sel4cp"))))
      ((i : ℕ) → i ≤ 20 → literal name i ≡ literal (bytes_of "sel4cp") i)
are_equal-decides_example =
    are_equal-decides (literal name) (literal (bytes_of "sel4cp")) 20
      (NoNul-IsTerminated name (NoNul-of name refl))

index_injective_example : pooled pages 149 ≡ pooled pages 149
index_injective_example =
    index_injective (pooled pages 149) (pooled pages 149) (omega arith) (omega arith) refl

create_all-le-pool_num_example :
    (create_all ((1, 0x1000) ∷ (2, 0x1000) ∷ []) demo_env demo_world).0 + 0 ≤ pool_num cnodes
create_all-le-pool_num_example =
    create_all-le-pool_num ((1, 0x1000) ∷ (2, 0x1000) ∷ []) demo_env demo_world initial_bounds

-- "1f"
abbrev digits_1f : ℕ → ℕ
digits_1f i = get_or (b'1' ∷ b'f' ∷ []) i 0

-- "3", and a file of three bytes
abbrev digits_3 : List ℕ
digits_3 = b'3' ∷ []

abbrev digits_50002 : List ℕ
digits_50002 = b'5' ∷ b'0' ∷ b'0' ∷ b'0' ∷ b'2' ∷ []

digits_3-AreDigits : AreDigits digits_3
unfolding AreDigits digit_value value
digits_3-AreDigits = (refl, tt)

digits_50002-AreDigits : AreDigits digits_50002
unfolding AreDigits digit_value value
digits_50002-AreDigits = (refl, (refl, (refl, (refl, (refl, tt)))))

horner-digits_3 : horner 0 digits_3 ≡ 3
unfolding horner value digit_value
horner-digits_3 = refl

horner-digits_50002 : horner 0 digits_50002 ≡ 0x50002
unfolding horner value digit_value
horner-digits_50002 = refl

abbrev after_three : World
after_three = delivered demo_env digits_3 (7 ∷ 8 ∷ 9 ∷ []) demo_world

handle_input-receives_example :
    (feed (b'3' ∷ b'\n' ∷ 7 ∷ 8 ∷ 9 ∷ []) demo_env demo_world
      ≡ ok (zeros 1 ++ 0 ∷ answers 2 0x300000) after_three)
    × IsIdle demo_env after_three
    × ((i : ℕ) → i < 3 → after_three.memory (0x300000 + i) ≡ get_or (7 ∷ 8 ∷ 9 ∷ []) i 0)
    × ((a : ℕ) → (a < 0x300000) ⊎ (0x300000 + 3 ≤ a) → after_three.memory a ≡ demo_memory a)
    × (after_three.trace ≡ [])
handle_input-receives_example =
    handle_input-receives demo_env digits_3 demo_world initial-IsIdle digits_3-AreDigits
      (omega arith) 7 (8 ∷ 9 ∷ []) horner-digits_3 (omega arith)

length-zeros : (n : ℕ) → length (zeros n) ≡ n
unfolding zeros
length-zeros zero = refl
length-zeros (suc n) = omega (arith, length-zeros n)

-- One byte more than the buffer has.
abbrev too_many : List ℕ
too_many = zeros 0x50001

abbrev overflown : World
overflown = delivering digits_50002 too_many demo_world

handle_input-overflows_example :
    (feed (digits_50002 ++ b'\n' ∷ too_many) demo_env demo_world
      ≡ ok (zeros 5 ++ 0 ∷ zeros (length too_many)) overflown)
    × ((i : ℕ) → i < length too_many → overflown.memory (0x300000 + i) ≡ get_or too_many i 0)
    × (overflown.trace
        ≡ printed " bytes\n"
          ∷ printed_hex64 elf_buffer_size
          ∷ printed "elf_loader: cannot read ELF files larger than "
          ∷ [])
    × (overflown.loader.elf_current_vaddr ≡ 0x300000 + length too_many)
    × (overflown.loader.elf_size ≡ horner 0 digits_50002)
handle_input-overflows_example =
    handle_input-overflows demo_env digits_50002 demo_world initial-IsIdle digits_50002-AreDigits
      (omega arith) too_many (omega (arith, horner-digits_50002))
      (omega (arith, horner-digits_50002, length-zeros 0x50001)) (λ i c s behind lt. refl)

demo_sizes :
    (i : ℕ)
    → i < (elf_header demo_memory 0x1000).e_phnum
    → (header_at demo_memory 0x1000 i).p_type ≡ pt_load
    → HasSizes (header_at demo_memory 0x1000 i)
unfolding elf_header elf_program_header load64 load32 load16 load8
demo_sizes zero lt is = (omega arith, omega arith)
demo_sizes (suc i) lt is = absurd (omega arith)

pd_create-HasEnded_example : HasEnded (pd_create 1 0x1000 demo_env demo_world)
pd_create-HasEnded_example = pd_create-HasEnded demo_env demo_world 1 0x1000 demo_sizes

abbrev demo_cursor : Cursor
demo_cursor = record { src_read = 0x1220; dst_write = 0x101ffc; current_vaddr = 0x200ffc }

write_bytes-StoresImage_example :
    StoresImage demo_env
      (load8 demo_memory)
      0x200ffc
      1
      6
      0x200ffc
      0x1220
      (stores [])
      (write_bytes 7 (load8 demo_memory) 6 0x200ffc 1 6 0 demo_cursor demo_env demo_world)
write_bytes-StoresImage_example =
    write_bytes-StoresImage demo_env (load8 demo_memory) 0x200ffc 1 6 refl 6 6 0 demo_cursor
      demo_world (omega arith) (omega arith) (λ more. omega arith) refl

-- The image itself: the identifier, then the bytes of the file in the next page.
image-demo :
    image demo_env (load8 demo_memory) 0x200ffc 1 6 0 0x200ffc 0x1220 []
    ≡ stored8 0x101001 15 ∷ stored8 0x101000 14 ∷ stored32 0x101ffc 1 ∷ []
unfolding image load8
image-demo = refl

initial-IsReceiving : IsReceiving demo_env demo_world.loader
initial-IsReceiving = record {
  digits = omega arith;
  waiting = λ _. refl;
  above = omega arith;
  below = λ begun. absurd (begun refl);
}

handle_input-Receives_example :
    Receives demo_env b'3' demo_world (final (handle_input b'3' demo_env demo_world))
handle_input-Receives_example =
    handle_input-Receives demo_env b'3' demo_world initial-IsReceiving (omega arith)

notified-IsSafe_example :
    (IsSafe (IsReady demo_env) (notify_all Root.notified (0 ∷ 1 ∷ []) demo_env demo_world)
      ⊎ Overlong Root.notified (0 ∷ 1 ∷ []) demo_env demo_world)
    × (IsSafe (IsReady demo_env) (notify_all Child.notified (0 ∷ 1 ∷ []) demo_env demo_world)
        ⊎ Overlong Child.notified (0 ∷ 1 ∷ []) demo_env demo_world)
notified-IsSafe_example =
    notified-IsSafe (0 ∷ 1 ∷ []) demo_env demo_world
      (record { bounded = initial_bounds; loader = (initial-IsReceiving, omega arith) })

msginfo_get_label-msginfo_new_example :
    (msginfo_get_label (msginfo_new 5 2) ≡ 5) × (message_info_get_length (msginfo_new 5 2) ≡ 2)
msginfo_get_label-msginfo_new_example =
    msginfo_get_label-msginfo_new 5 2 (omega arith) (omega arith)

allocate_page-HandsOut_example : HandsOut 0 (allocate_page 0x200ffc 459 6 demo_env demo_world)
allocate_page-HandsOut_example = allocate_page-HandsOut demo_env 0x200ffc 459 6 demo_world

uart_put_str-string_sent_example :
    Leaves
      (string_sent demo_env (b'h' ∷ b'\r' ∷ []) (written []))
      (uart_put_str 1 (b'h' ∷ b'\r' ∷ []) demo_env demo_world)
uart_put_str-string_sent_example =
    uart_put_str-string_sent demo_env 0 (λ t. refl) (b'h' ∷ b'\r' ∷ []) demo_world
