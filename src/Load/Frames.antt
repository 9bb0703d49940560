-- ===== src/Load/Frames.antt =====
-- Frames of memory, as the kernel documents its calls: which frame a VSpace shows at a page, which
-- one the temporary page shows, and what the frames hold. A frame has the number of the slot of its
-- capability in the pool of the current PD.
use se_l4cp_poc.Prelude.{
  ℕ, ◌+◌, ◌-◌, ◌*◌, ◌/◌, ◌%◌, ◌^◌, ◌<◌, ◌≡◌, ◌∷◌, ◌&&◌, ltb, leb, ◌==◌, if◌then◌else◌,
}
use se_l4cp_poc.Kernel.{sel4_no_error}
use se_l4cp_poc.Layout.{pages, pool_num, pool_base, temp_cap}
use se_l4cp_poc.Machine.State.{
  Event, invoked, stored8, stored32, Call, cnode_delete, cnode_copy, arm_page_map, Trace, World,
  Env, temp_page_vaddr,
}
use se_l4cp_poc.Paging.Fresh.{page_idx}

pub record View : Type 0 where
  pub frame_at : (vspace page : ℕ) → ℕ
  pub temp_frame : ℕ
  pub window : ℕ
  pub contents : (frame offset : ℕ) → ℕ

-- A store of `n` bytes at `addr`, of which the temporary page shows a frame.
abbrev pub write_window : Env → View → (addr n : ℕ) → (ℕ → ℕ) → View
write_window e v addr n bytes = record v {
  contents = λ frame offset.
      if (frame == v.window)
        && (leb addr (temp_page_vaddr e + offset)
            && (ltb (temp_page_vaddr e + offset) (addr + n) && ltb offset 0x1000))
      then bytes (temp_page_vaddr e + offset - addr)
      else v.contents frame offset;
}

-- What an accepted call does: `seL4_CNode_Delete` of the capability at TEMP_CAP takes its mapping
-- away, and frame 0 stands for none; a copy at TEMP_CAP is of the same frame; `seL4_ARM_Page_Map`
-- shows the frame of its capability.
abbrev pub accepted : Call → View → View
accepted (cnode_delete service index depth) v =
    if index == temp_cap then record v { temp_frame = 0; window = 0 } else v
accepted (cnode_copy service dest_index dest_depth src_root src_index src_depth rights) v =
    if dest_index == temp_cap then record v { temp_frame = src_index } else v
accepted (arm_page_map service vspace vaddr rights attr) v =
    if service == temp_cap then record v { window = v.temp_frame } else record v {
      frame_at = λ s page. if (s == vspace) && (page == vaddr) then service else v.frame_at s page;
    }
accepted _ v = v

-- A word is stored with its low byte first; a refused call does nothing.
abbrev pub effect : Env → Event → View → View
effect e (invoked call answer) v = if answer == sel4_no_error then accepted call v else v
effect e (stored8 addr value) v = write_window e v addr 1 (λ _. value)
effect e (stored32 addr value) v = write_window e v addr 4 (λ k. value / 2 ^ (8 * k) % 2 ^ 8)
effect e _ v = v

-- What is relied on of the kernel and the processor.
abbrev pub IsDocumented : Env → (Trace → View) → Type 0
IsDocumented e view = (ev : Event) (t : Trace) → view (ev ∷ t) ≡ effect e ev (view t)

-- The byte that a VSpace shows at an address.
abbrev pub page_of : ℕ → ℕ
page_of vaddr = vaddr / 2 ^ 12 * 2 ^ 12

abbrev pub byte_at : View → (vspace vaddr : ℕ) → ℕ
byte_at v vspace vaddr = v.contents (v.frame_at vspace (page_of vaddr)) (vaddr % 0x1000)

-- A page of a VSpace shows a frame, and the temporary page shows one.
abbrev pub placed : View → (vspace page frame : ℕ) → View
placed v vspace page frame = record v {
  frame_at = λ s p. if (s == vspace) && (p == page) then frame else v.frame_at s p;
}

abbrev pub shown : View → (frame : ℕ) → View
shown v frame = record v { temp_frame = frame; window = frame }

-- The frames, and how many pages are handed out.
abbrev pub seen_by : (Trace → View) → World → View × ℕ
seen_by view w = (view w.trace, page_idx w)

-- A new page of a VSpace, which the temporary page shows as well.
abbrev pub Opened : (Trace → View) → (vspace vaddr : ℕ) → View × ℕ → World → Type 0
Opened view vspace vaddr s w =
    (s.1 < pool_num pages)
    × (seen_by view w ≡ (
      shown (placed s.0 vspace (page_of vaddr) (pool_base pages + s.1)) (pool_base pages + s.1),
      s.1 + 1,
    ))
