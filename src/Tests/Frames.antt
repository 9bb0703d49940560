-- ===== src/Tests/Frames.antt =====
-- The frames of a kernel that does what it documents, and the segment of the file in them.
use se_l4cp_poc.Prelude.{ℕ, zero, suc, ◌<◌, ◌≡◌, refl, [], ◌∷◌, arith}
use se_l4cp_poc.Machine.State.{Trace}
use se_l4cp_poc.Elf.{elf_header, elf_program_header, load64, load32, load16, load8}
use se_l4cp_poc.Load.{load_segments}
use se_l4cp_poc.Load.Ends.{header_at}
use se_l4cp_poc.Load.Frames.{View, effect, IsDocumented}
use se_l4cp_poc.Load.Contents.{segment_image, HasRange}
use se_l4cp_poc.Load.Program.{Loadable, IsOrderly, ShowsProgram, load_segments-ShowsProgram}
use se_l4cp_poc.Tests.Elves.{demo_memory, demo_env, demo_world}

abbrev replayed : Trace → View
replayed [] = record {
  frame_at = λ vspace page. 0;
  temp_frame = 0;
  window = 0;
  contents = λ frame offset. 0;
}
replayed (ev ∷ t) = effect demo_env ev (replayed t)

replayed-IsDocumented : IsDocumented demo_env replayed
replayed-IsDocumented ev t = refl

demo_range :
    (k : ℕ) → k < 1 → Loadable demo_memory 0x1000 k → HasRange (header_at demo_memory 0x1000 k)
unfolding elf_header elf_program_header load64 load32 load16 load8
demo_range zero lt is = (omega arith, omega arith)
demo_range (suc k) lt is = absurd (omega arith)

demo-IsOrderly : IsOrderly demo_memory 0x1000 1
demo-IsOrderly = record {
  ranged = demo_range;
  ordered = λ k l before lt. absurd (omega (arith, before, lt));
}

load_segments-ShowsProgram_example :
    ShowsProgram demo_env replayed replayed-IsDocumented demo_memory 0x1000 0x200ffc 1 refl 1
      demo-IsOrderly
      (load_segments 1 demo_memory 0x1000 0x200ffc 1 0 demo_env demo_world)
load_segments-ShowsProgram_example =
    load_segments-ShowsProgram demo_env replayed replayed-IsDocumented demo_memory 0x1000 0x200ffc 1
      refl 1 demo-IsOrderly demo_world

-- The identifier's low byte, a byte of the file, and a zero.
image-demo :
    (segment_image demo_memory 0x1000 0x200ffc 1 (header_at demo_memory 0x1000 0) 0x200ffc ≡ 1)
    × (segment_image demo_memory 0x1000 0x200ffc 1 (header_at demo_memory 0x1000 0) 0x201001 ≡ 15)
    × (segment_image demo_memory 0x1000 0x200ffc 1 (header_at demo_memory 0x1000 0) 0x201003 ≡ 0)
unfolding segment_image elf_header elf_program_header load64 load32 load16 load8
image-demo = (refl, refl, refl)
