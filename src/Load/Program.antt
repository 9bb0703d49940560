-- ===== src/Load/Program.antt =====
-- The loop over the program headers, and what the VSpace of the new PD shows of the program.
use se_l4cp_poc.Prelude.{
  ℕ, zero, suc, ◌+◌, ◌%◌, ◌≤◌, ◌<◌, ◌≡◌, inl, inr, refl, subst, false, arith, ltb, ltb→lt,
  ltb_false→le, ◌==◌, Bool-cases, ==_iff,
}
use se_l4cp_poc.Prelude.Words.{u32}
use se_l4cp_poc.Layout.{pt_load, base_vspace_cap}
use se_l4cp_poc.Machine.State.{Memory, Trace, World, Env}
use se_l4cp_poc.Machine.Run.{Run, ok, fail, crash, out_of_fuel, pure, ◌>>=◌}
use se_l4cp_poc.Machine.Leaves.{Returns, Returns-then, Returns-map}
use se_l4cp_poc.Machine.Halts.{HasEnded}
use se_l4cp_poc.Load.{load_segment, load_if_loadable, load_segments}
use se_l4cp_poc.Load.Ends.{header_at, HasSizes, Halts-load_segments}
use se_l4cp_poc.Load.Frames.{View, seen_by, page_of, byte_at, IsDocumented}
use se_l4cp_poc.Load.Shown.{Facts, Shows}
use se_l4cp_poc.Load.Contents.{segment_image, InSegment, SegmentFacts, And, Shows-map, HasRange}
use se_l4cp_poc.Load.Covered.{vspace, load_segment-Shows}

module _ (m : Memory) (src : ℕ) where
  abbrev pub Loadable : ℕ → Type 0
  Loadable k = (header_at m src k).p_type ≡ pt_load

  -- The segments that are loaded do not wrap, and each begins in a page behind the ones before it,
  -- as the ELF format has them in the order of their addresses.
  pub record IsOrderly (end : ℕ) : Type 0 where
    pub ranged : (k : ℕ) → k < end → Loadable k → HasRange (header_at m src k)
    pub ordered :
        (k l : ℕ)
        → k < l
        → l < end
        → Loadable k
        → Loadable l
        → (a : ℕ) → InSegment (header_at m src k) a
        → page_of a < page_of (header_at m src l).p_vaddr

module _ (e : Env) (view : Trace → View) (documented : IsDocumented e view) (m : Memory)
    (src pd_id_vaddr pd : ℕ) (aligned : pd_id_vaddr % 4 ≡ 0) (end : ℕ)
    (orderly : IsOrderly m src end) where
  -- The bytes of the segments from one header up to another.
  abbrev ProgramFacts : ℕ → ℕ → Facts
  ProgramFacts i j a x =
      (k : ℕ) × (i ≤ k)
      × (k < j)
      × Loadable m src k
      × SegmentFacts m src pd_id_vaddr pd (header_at m src k) a x

  -- What is known lies in pages before those of the segments that are left.
  abbrev Before : Facts → ℕ → Type 0
  Before F i =
      (k : ℕ)
      → i ≤ k
      → k < end
      → Loadable m src k
      → (a x : ℕ) → F a x
      → page_of a < page_of (header_at m src k).p_vaddr

  abbrev Known : Facts → World → Type 0
  Known F w = Shows F (vspace e view documented m src pd_id_vaddr pd aligned) (seen_by view w)

  only_this :
      (i a x : ℕ)
      → ProgramFacts i (i + 1) a x
      → Loadable m src i × SegmentFacts m src pd_id_vaddr pd (header_at m src i) a x
  only_this i a x (k, le, lt, is, f) =
      subst (λ j. Loadable m src j × SegmentFacts m src pd_id_vaddr pd (header_at m src j) a x)
        (omega (arith, le, lt)) (is, f)

  this_segment :
      (F : Facts) (i a x : ℕ)
      → And F (ProgramFacts i (i + 1)) a x
      → And F (SegmentFacts m src pd_id_vaddr pd (header_at m src i)) a x
  this_segment F i a x (inl f) = inl f
  this_segment F i a x (inr f) = inr (only_this i a x f).1

  no_segment :
      (F : Facts) (i : ℕ)
      → ((header_at m src i).p_type == pt_load) ≡ false
      → (a x : ℕ) → And F (ProgramFacts i (i + 1)) a x
      → F a x
  no_segment F i other a x (inl f) = f
  no_segment F i other a x (inr f) =
      let is : (header_at m src i).p_type ≡ pt_load = (only_this i a x f).0 in
      absurd (ground (arith, other, is))

  -- This segment and the ones behind it.
  parted :
      (F : Facts) (i a x : ℕ)
      → And F (ProgramFacts i end) a x
      → And (And F (ProgramFacts i (i + 1))) (ProgramFacts (i + 1) end) a x
  parted F i a x (inl f) = inl (inl f)
  parted F i a x (inr (k, le, lt, is, f)) = elim (Bool-cases (ltb i k)) [
    | inl later ↦ inr (k, omega (arith, ltb→lt i k later), lt, is, f)
    | inr now ↦ inl (inr (k, le, omega (arith, ltb_false→le i k now), is, f))
  ]

  still-Before : (F : Facts) (i : ℕ) → Before F i → Before (And F (ProgramFacts i (i + 1))) (i + 1)
  still-Before F i before k le lt is a x (inl f) = before k (omega (arith, le)) lt is a x f
  still-Before F i before k le lt is a x (inr f) =
      let only = only_this i a x f in
      orderly.ordered i k (omega (arith, le)) lt only.0 is a only.1.0

  one_more :
      (F : Facts) (i : ℕ) (w : World)
      → i < end
      → Before F i
      → Known F w
      → Returns
          (λ _ w'. Known (And F (ProgramFacts i (i + 1))) w')
          (load_if_loadable m src pd_id_vaddr pd (header_at m src i) e w)
  unfolding load_if_loadable pure ◌>>=◌
  one_more F i w inside before h = elim (Bool-cases ((header_at m src i).p_type == pt_load)) [
    | inl is ↦
        let loadable : Loadable m src i = (==_iff _ _).0 is in
        rw is (
          Returns-then _ _ (load_segment m src pd_id_vaddr pd (header_at m src i) e w) _
            (load_segment-Shows e view documented m src pd_id_vaddr pd aligned F (header_at m src i)
              (before i (omega arith) inside loadable) (orderly.ranged i inside loadable) w h)
            λ _ u. Shows-map _ _ _ _ (this_segment F i))
    | inr other ↦ rw other (Shows-map F _ _ _ (no_segment F i other) h)
  ]

  nothing_left :
      (F : Facts) (i : ℕ) → i + 0 ≡ end → (a x : ℕ) → And F (ProgramFacts i end) a x → F a x
  nothing_left F i at a x (inl f) = f
  nothing_left F i at a x (inr (k, le, lt, is, f)) = absurd (omega (arith, at, le, lt))

  all_segments :
      (n i : ℕ) (F : Facts) (w : World)
      → i + n ≡ end
      → Before F i
      → Known F w
      → Returns
          (λ _ w'. Known (And F (ProgramFacts i end)) w')
          (load_segments n m src pd_id_vaddr pd i e w)
  unfolding load_segments pure ◌>>=◌
  all_segments zero i F w at before h = Shows-map F _ _ _ (nothing_left F i at) h
  all_segments (suc n) i F w at before h =
      Returns-then _ _ (load_if_loadable m src pd_id_vaddr pd (header_at m src i) e w) _
        (one_more F i w (omega arith) before h)
        λ _ u known.
          Returns-map _ _ (load_segments n m src pd_id_vaddr pd (i + 1) e u)
            (all_segments n (i + 1) (And F (ProgramFacts i (i + 1))) u (omega arith)
              (still-Before F i before) known)
            λ _ w' all. Shows-map _ _ _ _ (parted F i) all

  -- Every byte of every segment that is loaded is shown at its address.
  abbrev pub ShowsProgram : Run (Unit {0}) → Type 0
  ShowsProgram (ok _ w) =
      (k : ℕ)
      → k < end
      → Loadable m src k
      → (a : ℕ) → InSegment (header_at m src k) a
      → byte_at (view w.trace) (u32 (base_vspace_cap + pd)) a
        ≡ segment_image m src pd_id_vaddr pd (header_at m src k) a
  ShowsProgram (fail w) = Unit {0}
  ShowsProgram (crash err w) = Unit {0}
  ShowsProgram (out_of_fuel w) = ⊥

  shown :
      (r : Run (Unit {0}))
      → HasEnded r
      → Returns (λ _ w. Known (ProgramFacts 0 end) w) r
      → ShowsProgram r
  shown (ok _ w) ended known =
      λ k lt is a within. known.bytes a _ (k, omega arith, lt, is, (within, refl))
  shown (fail w) ended known = tt
  shown (crash err w) ended known = tt
  shown (out_of_fuel w) ended known = ended

  has_sizes : (k : ℕ) → k < end → Loadable m src (0 + k) → HasSizes (header_at m src (0 + k))
  has_sizes k lt =
      subst (λ j. Loadable m src j → HasSizes (header_at m src j)) (omega arith)
        λ is. let range = orderly.ranged k lt is in (omega (arith, range.0), omega (arith, range.1))

  nothing : (w : World) → Known (λ a x. ⊥) w
  nothing w = record { handed_out = λ a x f. absurd f; bytes = λ a x f. absurd f }

  -- Where kernel and processor do with pages what they document, the address of the variable for
  -- the PD's identifier is a multiple of 4, and the segments that are loaded do not wrap and begin
  -- in pages behind the ones before: the loop over the program headers ends, and, if it returns
  -- without an error, the VSpace of the new PD shows, at each address of each of these segments,
  -- the byte of the file, 0 behind the file's bytes, and the PD's identifier in its variable.
  pub load_segments-ShowsProgram :
      (w : World) → ShowsProgram (load_segments end m src pd_id_vaddr pd 0 e w)
  load_segments-ShowsProgram w =
      shown (load_segments end m src pd_id_vaddr pd 0 e w)
        ((Halts-load_segments pd_id_vaddr pd m src end 0 has_sizes).from w)
        (Returns-map _ _ (load_segments end m src pd_id_vaddr pd 0 e w)
          (all_segments end 0 (λ a x. ⊥) w (omega arith) (λ k le lt is a x f. absurd f) (nothing w))
          λ _ v. Shows-map _ _ _ _ (λ a x. inr))
