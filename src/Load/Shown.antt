-- ===== src/Load/Shown.antt =====
-- Bytes that a VSpace shows, while the temporary page shows the frame of one of its pages.
use se_l4cp_poc.Prelude.{
  ℕ, ◌+◌, ◌-◌, ◌%◌, ◌≤◌, ◌<◌, ◌≡◌, ◌≢◌, ◌⊎◌, inl, inr, refl, sym, ◌∙◌, ap, arith, ltb, ◌==◌,
  ==_false, ==_refl, Bool-cases, ==_iff, lt→ltb, ltb→lt, ltb_false→le, le→leb, leb-false,
}
use se_l4cp_poc.Layout.{pages, pool_base}
use se_l4cp_poc.Machine.State.{Env, temp_page_vaddr}
use se_l4cp_poc.Load.Frames.{View, page_of, byte_at, write_window, placed, shown}

-- Addresses with the bytes that are to be there.
abbrev pub Facts : Type 1
Facts = (addr byte : ℕ) → Type 0

-- The VSpace shows the bytes, in frames that were handed out.
pub record Shows (F : Facts) (vspace : ℕ) (s : View × ℕ) : Type 0 where
  pub handed_out : (a x : ℕ) → F a x → s.0.frame_at vspace (page_of a) < pool_base pages + s.1
  pub bytes : (a x : ℕ) → F a x → byte_at s.0 vspace a ≡ x

-- The temporary page shows the frame of a page of the VSpace, and of no other page with a fact.
pub record Faces (F : Facts) (vspace page : ℕ) (s : View × ℕ) : Type 0 where
  pub shows : Shows F vspace s
  pub faced : s.0.frame_at vspace page ≡ s.0.window
  pub handed : s.0.window < pool_base pages + s.1
  pub apart : (a x : ℕ) → F a x → page_of a ≢ page → s.0.frame_at vspace (page_of a) ≢ s.0.window

-- More facts: the bytes of an image from `start` up to an address.
abbrev pub Upto : Facts → (image : ℕ → ℕ) → (start end : ℕ) → Facts
Upto F image start end a x = F a x ⊎ ((start ≤ a) × (a < end) × (x ≡ image a))

module _ (F : Facts) (vspace vaddr : ℕ) (s : View × ℕ) where
  abbrev frame : ℕ
  frame = pool_base pages + s.1

  abbrev pub opened : View × ℕ
  opened = (shown (placed s.0 vspace (page_of vaddr) frame) frame, s.1 + 1)

  elsewhere :
      (a : ℕ)
      → page_of a ≢ page_of vaddr
      → opened.0.frame_at vspace (page_of a) ≡ s.0.frame_at vspace (page_of a)
  elsewhere a other = rw (==_false (page_of a) (page_of vaddr) other, ==_refl vspace) refl

  pub opened-Faces :
      Shows F vspace s
      → ((a x : ℕ) → F a x → page_of a ≢ page_of vaddr)
      → Faces F vspace (page_of vaddr) opened
  opened-Faces h other = record {
    shows = record {
      handed_out =
          λ a x f. let same = elsewhere a (other a x f) in omega (arith, same, h.handed_out a x f);
      bytes = λ a x f. rw (elsewhere a (other a x f)) (h.bytes a x f);
    };
    faced = rw (==_refl (page_of vaddr), ==_refl vspace) refl;
    handed = omega arith;
    apart = λ a x f _ same. omega (arith, same, elsewhere a (other a x f), h.handed_out a x f);
  }

module _ (e : Env) (F : Facts) (image : ℕ → ℕ) (start vspace v b : ℕ) (bytes : ℕ → ℕ)
    (s : View × ℕ) where
  abbrev pub stored : View × ℕ
  stored = (write_window e s.0 (temp_page_vaddr e + v % 0x1000) b bytes, s.1)

  kept :
      (a : ℕ)
      → (page_of a ≡ page_of v → a < v)
      → (page_of a ≢ page_of v → s.0.frame_at vspace (page_of a) ≢ s.0.window)
      → byte_at stored.0 vspace a ≡ byte_at s.0 vspace a
  kept a before apart = elim (Bool-cases (page_of a == page_of v)) [
    | inl same ↦
        let lt : a < v = before ((==_iff _ _).0 same) in
        let p : page_of a ≡ page_of v = (==_iff _ _).0 same in
        rw
          (leb-false (temp_page_vaddr e + v % 0x1000) (temp_page_vaddr e + a % 0x1000)
            (omega (arith, lt, p)))
          (ground arith)
    | inr other ↦ rw (==_false _ _ (apart (λ p. ground (arith, p, other)))) refl
  ]

  placed_byte :
      (a : ℕ)
      → v ≤ a
      → a < v + b
      → v % 0x1000 + b ≤ 0x1000
      → s.0.frame_at vspace (page_of v) ≡ s.0.window
      → byte_at stored.0 vspace a ≡ bytes (a - v)
  placed_byte a after before fits faced =
      let same : page_of a ≡ page_of v = omega arith in
      let back : temp_page_vaddr e + a % 0x1000 - (temp_page_vaddr e + v % 0x1000) ≡ a - v =
        omega arith in
      rw
        (
          same,
          faced,
          ==_refl s.0.window,
          le→leb (temp_page_vaddr e + v % 0x1000) (temp_page_vaddr e + a % 0x1000) (omega arith),
          lt→ltb (temp_page_vaddr e + a % 0x1000) (temp_page_vaddr e + v % 0x1000 + b)
              (omega arith),
          lt→ltb (a % 0x1000) 0x1000 (omega arith),
          back,
        )
        refl

  -- A fact is one from before, or is of a byte that is stored.
  abbrev Stored : Facts
  Stored a x = (v ≤ a) × (a < v + b) × (x ≡ image a)

  old_or_new : (a x : ℕ) → Upto F image start (v + b) a x → Upto F image start v a x ⊎ Stored a x
  old_or_new a x (inl f) = inl (inl f)
  old_or_new a x (inr (lo, hi, is)) = elim (Bool-cases (ltb a v)) [
    | inl before ↦ inl (inr (lo, ltb→lt a v before, is))
    | inr after ↦ inr (ltb_false→le a v after, hi, is)
  ]

  before :
      (a x : ℕ)
      → start ≤ v
      → ((a x : ℕ) → F a x → page_of a < page_of start)
      → Upto F image start v a x
      → page_of a ≡ page_of v
      → a < v
  before a x begun below (inl f) same = omega (arith, below a x f, same)
  before a x begun below (inr (lo, hi, is)) same = hi

  pub stored-Faces :
      start ≤ v
      → v % 0x1000 + b ≤ 0x1000
      → ((k : ℕ) → k < b → bytes k ≡ image (v + k))
      → ((a x : ℕ) → F a x → page_of a < page_of start)
      → Faces (Upto F image start v) vspace (page_of v) s
      → Faces (Upto F image start (v + b)) vspace (page_of v) stored
  stored-Faces begun fits agree below h = record {
    shows = record {
      handed_out = λ a x f. elim (old_or_new a x f) [
        | inl old ↦ h.shows.handed_out a x old
        | inr (lo, hi, is) ↦
            let same : page_of a ≡ page_of v = omega arith in rw (same, h.faced) h.handed
      ];
      bytes = λ a x f. elim (old_or_new a x f) [
        | inl old ↦ kept a (before a x begun below old) (h.apart a x old) ∙ h.shows.bytes a x old
        | inr (lo, hi, is) ↦
            let at : v + (a - v) ≡ a = omega arith in
            placed_byte a lo hi fits h.faced ∙ agree (a - v) (omega arith) ∙ ap image at ∙ sym is
      ];
    };
    faced = h.faced;
    handed = h.handed;
    apart = λ a x f other. elim (old_or_new a x f) [
      | inl old ↦ h.apart a x old other
      | inr (lo, hi, is) ↦ absurd (other (omega arith))
    ];
  }
