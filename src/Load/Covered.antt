-- ===== src/Load/Covered.antt =====
-- `load_segment`, and what the VSpace of the new PD shows.
use se_l4cp_poc.Prelude.{
  ℕ, ◌+◌, ◌-◌, ◌%◌, ◌≤◌, ◌<◌, ◌≡◌, ◌≢◌, inl, inr, refl, sym, subst, ◌∙◌, arith, ltb, ltb→lt, lt→ltb,
  ltb-false, ltb_false→le, Bool-cases,
}
use se_l4cp_poc.Prelude.Words.{u32}
use se_l4cp_poc.Layout.{base_vspace_cap}
use se_l4cp_poc.Machine.State.{Memory, Trace, World, Env}
use se_l4cp_poc.Machine.Run.{pure, ◌>>=◌}
use se_l4cp_poc.Machine.Leaves.{Returns, Returns-then, Returns-map, Returns-and}
use se_l4cp_poc.Elf.{load8, ElfProgramHeader}
use se_l4cp_poc.Load.{Cursor, ensure_page_is_allocated, write_bytes, write_zeros, load_segment}
use se_l4cp_poc.Load.Window.{new_page}
use se_l4cp_poc.Load.Frames.{View, seen_by, page_of, IsDocumented}
use se_l4cp_poc.Load.Placed.{ensured-Opened}
use se_l4cp_poc.Load.Shown.{Facts, Shows, Faces, Upto, opened-Faces}
use se_l4cp_poc.Load.Loaded.{Agrees, Writing, write_bytes-Writing}
use se_l4cp_poc.Load.Contents.{
  segment_image, SegmentFacts, identifier_part, other_part, And, Shows-map, HasRange,
}

module _ (e : Env) (view : Trace → View) (documented : IsDocumented e view) (m : Memory)
    (src pd_id_vaddr pd : ℕ) (aligned : pd_id_vaddr % 4 ≡ 0) where
  abbrev pub vspace : ℕ
  vspace = u32 (base_vspace_cap + pd)

  module _ (F : Facts) (hdr : ElfProgramHeader)
      (below : (a x : ℕ) → F a x → page_of a < page_of hdr.p_vaddr) (range : HasRange hdr) where
    abbrev image : ℕ → ℕ
    image = segment_image m src pd_id_vaddr pd hdr

    abbrev Going : (source : ℕ → ℕ) → Cursor → World → Type 0
    Going source =
        Writing e view documented F image hdr.p_vaddr below pd hdr.p_flags source
          (src + hdr.p_offset) pd_id_vaddr aligned

    nothing_yet : (a x : ℕ) → Upto F image hdr.p_vaddr hdr.p_vaddr a x → F a x
    nothing_yet a x (inl f) = f
    nothing_yet a x (inr (lo, hi, is)) = absurd (omega (arith, lo, hi))

    apart : (a x : ℕ) → F a x → page_of a ≢ page_of hdr.p_vaddr
    apart a x f same = omega (arith, below a x f, same)

    first_page :
        (w : World)
        → Shows F vspace (seen_by view w)
        → Returns
            (λ dst w'.
              Going
                (load8 m)
                (record {
                  src_read = src + hdr.p_offset;
                  dst_write = dst;
                  current_vaddr = hdr.p_vaddr;
                })
                w')
            (ensure_page_is_allocated 0 hdr.p_vaddr pd hdr.p_flags e w)
    first_page w h =
        Returns-map _ _ (ensure_page_is_allocated 0 hdr.p_vaddr pd hdr.p_flags e w)
          (Returns-and _ _ (ensure_page_is_allocated 0 hdr.p_vaddr pd hdr.p_flags e w)
            ((new_page {e = e} hdr.p_vaddr pd hdr.p_flags).from w)
            (ensured-Opened e view documented pd 0 hdr.p_vaddr hdr.p_flags w refl))
          λ dst w' now. record {
            begun = omega arith;
            handle = now.0;
            read = omega arith;
            outside = λ inside. inl inside;
            faces = subst (Faces _ vspace (page_of hdr.p_vaddr)) (sym now.1.1) (
                opened-Faces (Upto F image hdr.p_vaddr hdr.p_vaddr) vspace hdr.p_vaddr _
                  (Shows-map F _ vspace _ nothing_yet h) λ a x f. apart a x (nothing_yet a x f));
          }

    file-Agrees :
        (v : ℕ)
        → hdr.p_vaddr ≤ v
        → v < hdr.p_vaddr + hdr.p_filesz
        → Agrees e view documented F image hdr.p_vaddr below pd hdr.p_flags
            (load8 m)
            (src + hdr.p_offset)
            pd_id_vaddr
            aligned
            v
    file-Agrees v begun lt = (
      λ at k small. identifier_part m src pd_id_vaddr pd hdr v k begun at small,
      λ beside outside. sym (
          other_part m src pd_id_vaddr pd hdr v beside outside
          ∙ rw (lt→ltb v (hdr.p_vaddr + hdr.p_filesz) lt) refl),
    )

    zero-Agrees :
        (v : ℕ)
        → hdr.p_vaddr + hdr.p_filesz ≤ v
        → Agrees e view documented F image hdr.p_vaddr below pd hdr.p_flags
            (λ _. 0)
            (src + hdr.p_offset)
            pd_id_vaddr
            aligned
            v
    zero-Agrees v over = (
      λ at k small. identifier_part m src pd_id_vaddr pd hdr v k (omega (arith, over)) at small,
      λ beside outside. sym (
          other_part m src pd_id_vaddr pd hdr v beside outside
          ∙ rw (ltb-false v (hdr.p_vaddr + hdr.p_filesz) over) refl),
    )

    -- The loop over the bytes of the file, and the one over the zeros behind them.
    abbrev Reached : ℕ → Cursor → World → Type 0
    Reached hi d w' =
        (hi ≤ d.current_vaddr) × (d.current_vaddr ≤ hi + 3) × ((source : ℕ → ℕ) → Going source d w')

    other_source :
        (source source' : ℕ → ℕ) (c : Cursor) (w : World) → Going source c w → Going source' c w
    other_source source source' c w h = record {
      begun = h.begun;
      handle = h.handle;
      read = h.read;
      outside = h.outside;
      faces = h.faces;
    }

    file_written :
        (c : Cursor) (w : World)
        → c.current_vaddr ≡ hdr.p_vaddr
        → Going (load8 m) c w
        → Returns (Reached (hdr.p_vaddr + hdr.p_filesz)) (
            write_bytes
              (hdr.p_filesz + 1)
              (load8 m)
              hdr.p_filesz
              pd_id_vaddr
              pd
              hdr.p_flags
              0
              c
              e
              w)
    file_written c w at going =
        Returns-map _ _
          (write_bytes (hdr.p_filesz + 1) (load8 m) hdr.p_filesz pd_id_vaddr pd hdr.p_flags 0 c e w)
          (write_bytes-Writing e view documented F image hdr.p_vaddr below pd hdr.p_flags (load8 m)
            (src + hdr.p_offset) pd_id_vaddr aligned (hdr.p_filesz + 1) hdr.p_filesz 0 hdr.p_vaddr
            (hdr.p_vaddr + hdr.p_filesz) c w (omega (arith, range.0), omega (arith, range.0))
            (omega (arith, at), omega (arith, at), omega (arith, at)) file-Agrees going)
          λ d w' h. (h.0, h.1, λ source. other_source (load8 m) source d w' h.2)

    abbrev Covered : Cursor → World → Type 0
    Covered d w' =
        (hdr.p_vaddr + hdr.p_filesz ≤ d.current_vaddr)
        × (hdr.p_vaddr + hdr.p_memsz ≤ d.current_vaddr)
        × Going (λ _. 0) d w'

    zeros_written :
        (c : Cursor) (w : World)
        → Reached (hdr.p_vaddr + hdr.p_filesz) c w
        → Returns Covered (write_zeros pd_id_vaddr pd hdr c e w)
    unfolding write_zeros pure
    zeros_written c w reached = elim (Bool-cases (ltb hdr.p_filesz hdr.p_memsz)) [
      | inl more ↦
          let lt : hdr.p_filesz < hdr.p_memsz = ltb→lt _ _ more in
          let zeros = hdr.p_memsz - hdr.p_filesz in
          rw more (
            Returns-map _ _
              (write_bytes (zeros + 1) (λ _. 0) zeros pd_id_vaddr pd hdr.p_flags 0 c e w)
              (write_bytes-Writing e view documented F image hdr.p_vaddr below pd hdr.p_flags
                (λ _. 0) (src + hdr.p_offset) pd_id_vaddr aligned (zeros + 1) zeros 0
                c.current_vaddr (c.current_vaddr + zeros) c w
                (omega (arith, range.1), omega (arith, range.1, reached.1, lt))
                (omega arith, omega arith, omega arith)
                (λ v lo hi. zero-Agrees v (omega (arith, lo, reached.0))) (reached.2 (λ _. 0)))
              λ d w' h. (omega (arith, reached.0, h.0), omega (arith, reached.0, h.0, lt), h.2))
      | inr none_left ↦
          let le : hdr.p_memsz ≤ hdr.p_filesz = ltb_false→le _ _ none_left in
          rw none_left (reached.0, omega (arith, le, reached.0), reached.2 (λ _. 0))
    ]

    all_covered :
        (end : ℕ)
        → hdr.p_vaddr + hdr.p_filesz ≤ end
        → hdr.p_vaddr + hdr.p_memsz ≤ end
        → (a x : ℕ) → And F (SegmentFacts m src pd_id_vaddr pd hdr) a x
        → Upto F image hdr.p_vaddr end a x
    all_covered end file memory a x (inl f) = inl f
    all_covered end file memory a x (inr ((lo, inl hi), is)) = inr (lo, omega (arith, file, hi), is)
    all_covered end file memory a x (inr ((lo, inr hi), is)) =
        inr (lo, omega (arith, memory, hi), is)

    pub load_segment-Shows :
        (w : World)
        → Shows F vspace (seen_by view w)
        → Returns
            (λ _ w'. Shows (And F (SegmentFacts m src pd_id_vaddr pd hdr)) vspace (seen_by view w'))
            (load_segment m src pd_id_vaddr pd hdr e w)
    unfolding load_segment ◌>>=◌
    load_segment-Shows w h =
        Returns-then _ _ (ensure_page_is_allocated 0 hdr.p_vaddr pd hdr.p_flags e w) _
          (first_page w h)
          λ dst u going.
            Returns-then _ _
              (write_bytes (hdr.p_filesz + 1) (load8 m) hdr.p_filesz pd_id_vaddr pd hdr.p_flags 0 _
                e u)
              _ (file_written _ u refl going)
              λ c u' reached.
                Returns-map _ _ (write_zeros pd_id_vaddr pd hdr c e u') (zeros_written c u' reached)
                  λ d w' covered.
                    Shows-map _ _ vspace _ (all_covered d.current_vaddr covered.0 covered.1)
                      covered.2.faces.shows
