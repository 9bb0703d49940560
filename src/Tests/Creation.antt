-- ===== src/Tests/Creation.antt =====
-- Theorems about the creation of a PD, applied to the small file.
use se_l4cp_poc.Elf.{elf_header}
use se_l4cp_poc.Create.{build_pd, pd_create}
use se_l4cp_poc.Create.Script.{Builds, build_pd-Builds}
use se_l4cp_poc.Create.Start.{StartsLast, pd_create-StartsLast}
use se_l4cp_poc.Tests.Elves.{demo_memory, demo_env, demo_world}

pd_create-StartsLast_example :
    StartsLast 1
      (elf_header demo_memory 0x1000).e_entry
      demo_world
      (pd_create 1 0x1000 demo_env demo_world)
pd_create-StartsLast_example = pd_create-StartsLast demo_env demo_world 1 0x1000

build_pd-Builds_example : Builds demo_env 1 532 demo_world (build_pd 1 532 demo_env demo_world)
build_pd-Builds_example = build_pd-Builds demo_env 1 532 demo_world
