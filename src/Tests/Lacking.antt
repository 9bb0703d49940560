-- ===== src/Tests/Lacking.antt =====
-- README.md's last example: child has been loaded without the shared memory region, and is to load
-- memory_reader, which needs it.
use se_l4cp_poc.Prelude.{ℕ, ◌≡◌, refl, sym, ap, ◌∙◌, Option, none, some, arith}
use se_l4cp_poc.Layout.{base_shared_memory_region_pages}
use se_l4cp_poc.Machine.State.{Call, arm_page_map, Trace, Env}
use se_l4cp_poc.Machine.Behaves.{Behaves}
use se_l4cp_poc.Elf.{load8, load16, load32, load64}
use se_l4cp_poc.Rights.{set_up_memory_region}
use se_l4cp_poc.Rights.Regions.{Sharing}
use se_l4cp_poc.Rights.Lacking.{IsChecking, Refuses, set_up_memory_region-Refuses}
use se_l4cp_poc.Tests.Elves.{demo_env, demo_world}
use se_l4cp_poc.Tests.Sharing.{memory, at_first, replayed, replayed-IsSharing}

abbrev sharing : Trace → Sharing
sharing = replayed 1 at_first

-- seL4_InvalidCapability is 2.
abbrev by_slot : Option ℕ → ℕ
by_slot none = 2
by_slot (some frame) = 0

abbrev answer : Trace → Call → ℕ
answer t (arm_page_map service vspace vaddr rights attr) = by_slot ((sharing t).holds 1 service)
answer t _ = 0

abbrev env : Env
env = record demo_env { current_pd_id = 1; kernel = answer }

checking : IsChecking env sharing
checking service vspace vaddr rights attr t empty p =
    let two : 2 ≡ 0 = sym (ap by_slot empty) ∙ p in omega (arith, two)

set_up_memory_region-Refuses_example :
    Behaves
      (λ _ _. ⊥)
      (Refuses env sharing memory 5 100 base_shared_memory_region_pages demo_world 0)
      (set_up_memory_region memory 5 100 base_shared_memory_region_pages env demo_world)
unfolding load64 load32 load16 load8
set_up_memory_region-Refuses_example =
    set_up_memory_region-Refuses env sharing memory 5 100 base_shared_memory_region_pages demo_world
      0 (replayed-IsSharing 1 at_first) checking (λ p. omega (arith, p)) (omega arith) (omega arith)
      (omega arith, omega arith, omega arith) (omega arith) refl
