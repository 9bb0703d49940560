-- ===== src/Load.antt =====
-- Loading an ELF file into a protection domain: `sel4cp_internal_set_up_ipc_buffer`,
-- `_get_pd_id_vaddr`, `_write_elf_data`, `_ensure_page_is_allocated` and `_pd_load_elf`.
pub mod Steps
pub mod Halts
pub mod Reasons
pub mod Ends
pub mod Image
pub mod Segment
pub mod Stores
pub mod Window
pub mod Frames
pub mod Placed
pub mod Shown
pub mod Loaded
pub mod Contents
pub mod Covered
pub mod Program
use se_l4cp_poc.Prelude.{
  ℕ, zero, suc, ◌+◌, ◌-◌, ◌*◌, ◌%◌, true, false, ◌||◌, ltb, ◌==◌, if◌then◌else◌,
}
use se_l4cp_poc.Prelude.Words.{u32, u64}
use se_l4cp_poc.Layout.{base_vspace_cap, base_tcb_cap, pt_load, p_flags_writable_readable}
use se_l4cp_poc.Machine.State.{Memory, tcb_set_ipc_buffer}
use se_l4cp_poc.Machine.Run.{
  Prog, ◌>>=◌, ◌>>◌, pure, failure, exhausted, on_fail, ask, dbg_puts, dbg_puthex64, store8,
  store32, try,
}
use se_l4cp_poc.Elf.{
  load8, elf_header, elf_program_header, ElfProgramHeader, elf_symbol_table_entry, get_symbol,
  bytes_of,
}
use se_l4cp_poc.Caps.{pd_restart}
use se_l4cp_poc.Paging.{allocate_page, allocate_page_with_write_handle}
use se_l4cp_poc.Rights.{set_up_access_rights}

unfoldable pub set_up_ipc_buffer : (src pd : ℕ) → Prog (Unit {0})
set_up_ipc_buffer src pd = do
  ipc_buffer_symbol ← on_fail (get_symbol src (bytes_of "__sel4_ipc_buffer_obj")) (
      dbg_puts
        "sel4cp_internal_set_up_ipc_buffer: failed to find the __sel4_ipc_buffer_obj symbol\n")
  m ← ask (λ e. e.memory)
  let ipc_buffer_vaddr = (elf_symbol_table_entry m ipc_buffer_symbol).st_value
  ipc_buffer_cap_idx ←
      on_fail
        (allocate_page ipc_buffer_vaddr (u32 (base_vspace_cap + pd)) p_flags_writable_readable)
        (dbg_puts
          "sel4cp_internal_set_up_ipc_buffer: failed to allocate a page for the IPC buffer of the PD\n")
  on_fail (try (tcb_set_ipc_buffer (u32 (base_tcb_cap + pd)) ipc_buffer_vaddr ipc_buffer_cap_idx))
      (dbg_puts "sel4cp_internal_set_up_ipc_buffer: failed to set the IPC buffer of the PD\n")

-- The argument `pd` of the source is not used there. The result may be NULL.
unfoldable pub get_pd_id_vaddr : (src : ℕ) → Prog ℕ
get_pd_id_vaddr src = do
  pd_id_symbol ← on_fail (get_symbol src (bytes_of "sel4cp_current_pd_id")) (
      dbg_puts
        "sel4cp_internal_get_pd_id_vaddr: failed to find the symbol 'sel4cp_current_pd_id' in the given PD\n")
  m ← ask (λ e. e.memory)
  pure (elf_symbol_table_entry m pd_id_symbol).st_value

-- `sizeof(pd)` is 4 and `sizeof(data)` is 1.
unfoldable pub write_elf_data : (byte write_target current_vaddr pd_id_vaddr pd : ℕ) → Prog ℕ
write_elf_data byte write_target current_vaddr pd_id_vaddr pd =
    if current_vaddr == pd_id_vaddr
    then (do store32 write_target pd; pure 4)
    else (do store8 write_target byte; pure 1)

-- The argument `src` of the source is only passed on to where it is not used.
unfoldable pub ensure_page_is_allocated : (write_handle current_vaddr pd p_flags : ℕ) → Prog ℕ
ensure_page_is_allocated write_handle current_vaddr pd p_flags =
    if (write_handle == 0) || (current_vaddr % 0x1000 == 0)
    then on_fail
        (allocate_page_with_write_handle current_vaddr (u32 (base_vspace_cap + pd)) p_flags)
        (do
          dbg_puts
              "sel4cp_internal_ensure_page_is_allocated: failed to allocate a page required to load the ELF file, vaddr = "
          dbg_puthex64 current_vaddr
          dbg_puts "\n")
    else pure write_handle

-- The variables of the loops that write a segment.
pub record Cursor : Type 0 where
  pub src_read : ℕ
  pub dst_write : ℕ
  pub current_vaddr : ℕ

-- One round of either loop: the byte is written, and the page for the next one ensured.
unfoldable pub write_step :
    (source : ℕ → ℕ) → (pd_id_vaddr pd p_flags : ℕ) → Cursor → Prog (ℕ × Cursor)
write_step source pd_id_vaddr pd p_flags c = do
  bytes_written ← write_elf_data (source c.src_read) c.dst_write c.current_vaddr pd_id_vaddr pd
  let current_vaddr = u64 (c.current_vaddr + bytes_written)
  dst_write ← ensure_page_is_allocated (c.dst_write + bytes_written) current_vaddr pd p_flags
  pure (
    bytes_written,
    record {
      src_read = c.src_read + bytes_written;
      dst_write = dst_write;
      current_vaddr = current_vaddr;
    },
  )

-- The two `while` loops of `sel4cp_internal_pd_load_elf`: the first takes its bytes from the ELF
-- file, the second, whose bytes are 0, moves `src_read` in the same way. `count` is the bound on
-- `j`.
unfoldable pub write_bytes :
    ℕ → (source : ℕ → ℕ) → (count pd_id_vaddr pd p_flags j : ℕ) → Cursor → Prog Cursor
write_bytes zero source count pd_id_vaddr pd p_flags j c = exhausted
write_bytes (suc fuel) source count pd_id_vaddr pd p_flags j c = elim (ltb j count) [
  | true ↦ do
    (bytes_written, c') ← write_step source pd_id_vaddr pd p_flags c
    write_bytes fuel source count pd_id_vaddr pd p_flags (u64 (j + bytes_written)) c'
  | false ↦ pure c
]

-- The second loop, `if (prog_hdr->p_memsz > prog_hdr->p_filesz)`.
unfoldable pub write_zeros : (pd_id_vaddr pd : ℕ) → ElfProgramHeader → Cursor → Prog Cursor
write_zeros pd_id_vaddr pd hdr c =
    if ltb hdr.p_filesz hdr.p_memsz
    then write_bytes (hdr.p_memsz - hdr.p_filesz + 1) (λ _. 0) (hdr.p_memsz - hdr.p_filesz)
        pd_id_vaddr pd hdr.p_flags 0 c
    else pure c

-- The body of the loop over the program headers, for a segment that is loaded.
unfoldable pub load_segment : Memory → (src pd_id_vaddr pd : ℕ) → ElfProgramHeader → Prog Cursor
load_segment m src pd_id_vaddr pd hdr = do
  dst_write ← ensure_page_is_allocated 0 hdr.p_vaddr pd hdr.p_flags
  c ←
      write_bytes (hdr.p_filesz + 1) (load8 m) hdr.p_filesz pd_id_vaddr pd hdr.p_flags 0 (record {
        src_read = src + hdr.p_offset;
        dst_write = dst_write;
        current_vaddr = hdr.p_vaddr;
      })
  write_zeros pd_id_vaddr pd hdr c

unfoldable pub load_if_loadable :
    Memory → (src pd_id_vaddr pd : ℕ) → ElfProgramHeader → Prog (Unit {0})
load_if_loadable m src pd_id_vaddr pd hdr =
    if hdr.p_type == pt_load
    then (do _ ← load_segment m src pd_id_vaddr pd hdr; pure tt)
    else pure tt

-- The loop over the program headers, with `n` rounds left from header `i`.
unfoldable pub load_segments : ℕ → Memory → (src pd_id_vaddr pd i : ℕ) → Prog (Unit {0})
load_segments zero m src pd_id_vaddr pd i = pure tt
load_segments (suc n) m src pd_id_vaddr pd i = do
  let hdr = elf_header m src
  load_if_loadable m src pd_id_vaddr pd
      (elf_program_header m (src + hdr.e_phoff + i * hdr.e_phentsize))
  load_segments n m src pd_id_vaddr pd (i + 1)

-- `pd_id_vaddr == NULL` also if the symbol's value is 0.
unfoldable pub find_pd_id_vaddr : (src : ℕ) → Prog ℕ
find_pd_id_vaddr src =
    on_fail
      (do pd_id_vaddr ← get_pd_id_vaddr src; if pd_id_vaddr == 0 then failure else pure pd_id_vaddr)
      (dbg_puts
        "selcp_pd_load_elf: failed to get the virtual address of the PD id variable for the given PD\n")

unfoldable pub pd_load_elf : (src pd : ℕ) → Prog (Unit {0})
pd_load_elf src pd = do
  pd_id_vaddr ← find_pd_id_vaddr src
  m ← ask (λ e. e.memory)
  load_segments (elf_header m src).e_phnum m src pd_id_vaddr pd 0
  on_fail (set_up_ipc_buffer src pd)
      (dbg_puts "sel4cp_internal_pd_load_elf: failed to set up the IPC buffer\n")
  on_fail (set_up_access_rights src pd)
      (dbg_puts "sel4cp_internal_pd_load_elf: failed to set up access rights\n")
  pd_restart pd (elf_header m src).e_entry
