-- ===== src/Lib.antt =====
-- Verification of the proof of concept for loading ELF programs into new protection domains (PDs)
-- of an seL4 Core Platform system.
--
-- The system. A running PD creates another one from an ELF file: root.c and child.c receive the
-- file over a UART (uart.h), a character at a time (elf_loader.h), and pass the buffer to
-- `sel4cp_pd_create`. That function and what it calls are in
-- sel4cp-sdk-1.2.6/board/qemu_arm_virt/debug/include/sel4cp.h, below called sel4cp.h. It takes
-- kernel objects from pools of unused ones, builds the capabilities of the new PD, copies the
-- loadable segments through a temporary page, reads the access right table of the patched file,
-- grants these rights and starts the program.
--
-- The modules and what they model:
-- - Prelude: numbers, tests, lists and machine words that the others share.
-- - Layout (and Layout.Slots): the macros of sel4cp.h for the CSpace and the pools.
-- - Machine.State: `allocation_state`, the static variables of elf_loader.h, message registers, the
--   system calls as data, and `Env`, what a program is given. Machine.Run: programs, as functions
--   from an environment and a world to an outcome. Machine.Evolves, Room, Yields, Leaves, Issued,
--   Bounds, Halts, Behaves, Reasons and Laws: how to reason about them.
-- - Elf: the structures of an ELF file and `sel4cp_internal_get_symbol`; Elf.Lookup: both of its
--   searches together.
-- - Kernel: rights and message words of libsel4. Caps: the functions that end in
--   `sel4cp_internal_crash` if the kernel refuses, `sel4cp_internal_delete_temp_cap` to
--   `sel4cp_internal_set_up_irq`, `sel4cp_internal_pd_restart` and `sel4cp_pd_stop`.
-- - Paging: page tables and pages. Rights: the access right table; Rights.Regions, Unshared,
--   Shares, Granted and Lacking: the memory regions that it shares. Load: the segments and
--   `sel4cp_internal_pd_load_elf`; Load.Frames to Load.Program: what the new PD's VSpace shows of
--   them. Create: `sel4cp_pd_create`; Create.Script: its list of calls; Create.Slots, Handover,
--   Endowment and Bestowed: the unused objects that it hands over; the modules named Reasons: why a
--   function fails or crashes. Api: the small public functions.
-- - Loader: elf_loader.h. Uart: uart.h. Domains: root.c, child.c, pong.c and memory_reader.c;
--   Domains.Channels: where a notification arrives; Domains.Wiring: whom an interrupt
--   notifies; Domains.Delivery: what root writes and memory_reader reads; Domains.PingPong: child
--   and pong together; Domains.Received and Domains.Interrupts: a transfer over the UART into root
--   or child.
-- - Tests: a small ELF file, a run of `sel4cp_pd_create` on it, and instances of the theorems.
-- A definition has the name of the C function without its prefix (`sel4cp_internal_`, `sel4cp_`,
-- `elf_loader_`); a loop or a part of a function that has a definition of its own says so there.
--
-- Conventions. A C function that returns an error value (-1, NULL, or 0 for a capability) ends in
-- `fail`; `crash err` is the fault of `sel4cp_internal_crash`. The kernel, the UART and the values
-- that the build tool sets are parameters in `Env`; kernel and device answer from the trace of all
-- that happened before, so they may keep any state. Each call, store through the temporary page,
-- access of a device register, message and write of a message register is an event of the trace;
-- what a message register holds is a parameter that depends on the trace, since system calls
-- write them too. The functions of sel4cp.h read the ELF file from the memory as it is when
-- `sel4cp_pd_create` is called; they store only through the temporary page, of whose stores it
-- is assumed that they hit none of the static variables and not the ELF file. What the kernel
-- and the processor do with memory and capabilities is relied on in named hypotheses only:
-- `Load.Frames.IsDocumented` for pages, `Domains.Channels.IsMinting` for notifications,
-- `Rights.Regions.IsSharing`, `Rights.Lacking.IsChecking` and `Domains.Delivery.IsStoring` for
-- shared pages, `Domains.Wiring.IsWired` for interrupt lines, `Create.Slots.IsMoving` for moved
-- capabilities; the main loop's calls of `notified` are a parameter, `channels_of`. What a store
-- of elf_loader.h outside of `elf_buffer` makes of the static variables, which C does not
-- define, is the parameter `overrun`.
-- `1 << n` at type int is `shift_one`: what the compiled program has for n of 31 or more, which C
-- does not define, is the parameter `undefined_shift`.
-- Sums of addresses that point into an object do not wrap; other sums wrap at their type's width,
-- written out as `u8`, `u32` and `u64`. The indices of `alloc_state` are tested before they grow.
--
-- Fuel. `write_bytes` has a round for each byte and one more, as each round writes a byte at
-- least. `search_table` has a round for each entry of the table and more, `are_equal` one for each
-- byte of the name that is looked for and its terminator. Waiting for room in the UART's transmit
-- register takes as many rounds as are given, since nothing in the program bounds them.
--
-- Not modelled: libsel4's stubs and system calls (a copy of seL4's client library), the debug
-- printing and the main loop of libsel4cp, of which there is only an archive, the monitor, the SDK
-- tool, the scripts, and the system descriptions.
pub mod Prelude
pub mod Layout
pub mod Machine
pub mod Elf
pub mod Kernel
pub mod Caps
pub mod Paging
pub mod Rights
pub mod Load
pub mod Create
pub mod Api
pub mod Loader
pub mod Uart
pub mod Domains
pub mod Tests
