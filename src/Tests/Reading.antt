-- ===== src/Tests/Reading.antt =====
-- Root, child and memory_reader, of which each gets the region from the one before, and a processor
-- that does what it documents.
use se_l4cp_poc.Prelude.{
  ℕ, ◌+◌, ◌-◌, ◌/◌, ◌%◌, [], ◌∷◌, Option, none, some, ◌==◌, if◌then◌else◌, ◌&&◌,
}
use se_l4cp_poc.Layout.{base_shared_memory_region_pages, base_cnode_cap, temp_cap}
use se_l4cp_poc.Machine.State.{World, invoked, cnode_copy, stored8, printed, Trace, Env}
use se_l4cp_poc.Machine.Run.{Run, final}
use se_l4cp_poc.Load.Frames.{page_of}
use se_l4cp_poc.Rights.{set_up_memory_region}
use se_l4cp_poc.Rights.Regions.{copied, Sharing}
use se_l4cp_poc.Domains.Root
use se_l4cp_poc.Domains.MemoryReader
use se_l4cp_poc.Tests.Elves.{demo_env, demo_world}
use se_l4cp_poc.Tests.Sharing.{memory, replayed, sharing}

abbrev child_env : Env
child_env = record demo_env { current_pd_id = 1 }

abbrev first_slot : ℕ
first_slot = base_shared_memory_region_pages

abbrev to_child : Run (ℕ × ℕ)
to_child = set_up_memory_region memory 1 100 first_slot demo_env demo_world

-- Root has granted the UART's page as well, and child has used its slot for temporary capabilities.
abbrev child_sharing : Trace → Sharing
child_sharing = replayed 1 (
    copied (base_cnode_cap + 1) (first_slot + 3) base_cnode_cap (first_slot + 3)
      (sharing (final to_child).trace))

abbrev child_world : World
child_world = record demo_world {
  trace =
      invoked (cnode_copy (base_cnode_cap + 1) temp_cap 11 (base_cnode_cap + 1) first_slot 11 15) 0
      ∷ printed "child: initialized!\n"
      ∷ [];
}

abbrev to_reader : Run (ℕ × ℕ)
to_reader = set_up_memory_region memory 5 100 first_slot child_env child_world

abbrev frame_of : ℕ → ℕ
frame_of page = (page - 0x5000000) / 0x1000

abbrev contents : Trace → ℕ → ℕ → ℕ
contents [] frame offset = 0
contents (stored8 addr value ∷ t) frame offset =
    let before = contents t frame offset in
    if (frame == frame_of (page_of addr)) && (offset == addr % 0x1000) then value else before
contents (_ ∷ t) frame offset = contents t frame offset

abbrev read_byte : Option (ℕ × ℕ × ℕ) → ℕ → ℕ
read_byte none a = 0
read_byte (some shown) a =
    contents (final (Root.init demo_env demo_world)).trace shown.0 (a % 0x1000)

abbrev reader_env : Env
reader_env = record demo_env {
  current_pd_id = 5;
  memory = λ a. read_byte ((child_sharing (final to_reader).trace).shows 5 (page_of a)) a;
}
