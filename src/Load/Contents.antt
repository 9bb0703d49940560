-- ===== src/Load/Contents.antt =====
-- What the VSpace of a new PD is to show of a segment.
use se_l4cp_poc.Prelude.{
  ℕ, ◌+◌, ◌-◌, ◌*◌, ◌/◌, ◌%◌, ◌^◌, ◌≤◌, ◌<◌, ◌≡◌, ◌≢◌, ◌⊎◌, inl, inr, refl, ◌&&◌, arith, ltb, leb,
  lt→ltb, le→leb, Bool-cases, if◌then◌else◌,
}
use se_l4cp_poc.Machine.State.{Memory}
use se_l4cp_poc.Elf.{load8, ElfProgramHeader}
use se_l4cp_poc.Load.Frames.{View}
use se_l4cp_poc.Load.Shown.{Facts, Shows}

-- The addresses of a segment: those of its bytes in the file and of its memory.
abbrev pub InSegment : ElfProgramHeader → ℕ → Type 0
InSegment hdr a =
    (hdr.p_vaddr ≤ a) × ((a < hdr.p_vaddr + hdr.p_filesz) ⊎ (a < hdr.p_vaddr + hdr.p_memsz))

module _ (m : Memory) (src pd_id_vaddr pd : ℕ) (hdr : ElfProgramHeader) where
  -- The byte of a segment at an address: of the PD's identifier, of the file, or 0.
  unfoldable pub segment_image : ℕ → ℕ
  segment_image a =
      if leb hdr.p_vaddr pd_id_vaddr && (leb pd_id_vaddr a && ltb a (pd_id_vaddr + 4))
      then pd / 2 ^ (8 * (a - pd_id_vaddr)) % 2 ^ 8
      else if ltb a (hdr.p_vaddr + hdr.p_filesz)
      then load8 m (src + hdr.p_offset + (a - hdr.p_vaddr))
      else 0

  abbrev pub SegmentFacts : Facts
  SegmentFacts a x = InSegment hdr a × (x ≡ segment_image a)

  pub identifier_part :
      (v k : ℕ)
      → hdr.p_vaddr ≤ v
      → v ≡ pd_id_vaddr
      → k < 4
      → pd / 2 ^ (8 * k) % 2 ^ 8 ≡ segment_image (v + k)
  unfolding segment_image
  identifier_part v k begun at small =
      let back : v + k - pd_id_vaddr ≡ k = omega (arith, at) in
      rw
        (
          le→leb hdr.p_vaddr pd_id_vaddr (omega (arith, at, begun)),
          le→leb pd_id_vaddr (v + k) (omega (arith, at)),
          lt→ltb (v + k) (pd_id_vaddr + 4) (omega (arith, at, small)),
          back,
        )
        refl

  pub other_part :
      (v : ℕ)
      → v ≢ pd_id_vaddr
      → (hdr.p_vaddr ≤ pd_id_vaddr → (v ≤ pd_id_vaddr) ⊎ (pd_id_vaddr + 4 ≤ v))
      → segment_image v ≡ (
          if ltb v (hdr.p_vaddr + hdr.p_filesz)
          then load8 m (src + hdr.p_offset + (v - hdr.p_vaddr))
          else 0)
  unfolding segment_image
  other_part v beside outside =
      elim (Bool-cases
        (leb hdr.p_vaddr pd_id_vaddr && (leb pd_id_vaddr v && ltb v (pd_id_vaddr + 4)))) [
          | inl within ↦ ground arith
          | inr without ↦ rw without refl
        ]

-- Facts that are known, with those of a segment.
abbrev pub And : Facts → Facts → Facts
And F G a x = F a x ⊎ G a x

pub Shows-map :
    (F G : Facts) (vspace : ℕ) (s : View × ℕ)
    → ((a x : ℕ) → G a x → F a x)
    → Shows F vspace s
    → Shows G vspace s
Shows-map F G vspace s sub h = record {
  handed_out = λ a x g. h.handed_out a x (sub a x g);
  bytes = λ a x g. h.bytes a x (sub a x g);
}

-- The addresses of a segment do not wrap.
abbrev pub HasRange : ElfProgramHeader → Type 0
HasRange hdr =
    (hdr.p_vaddr + hdr.p_filesz + 16 ≤ 2 ^ 64) × (hdr.p_vaddr + hdr.p_memsz + 16 ≤ 2 ^ 64)
