-- ===== src/Load/Loaded.antt =====
-- The loops that write a segment, against what the VSpace of the new PD shows.
use se_l4cp_poc.Prelude.{
  ℕ, zero, suc, ◌+◌, ◌-◌, ◌*◌, ◌/◌, ◌%◌, ◌^◌, ◌≤◌, ◌<◌, ◌≡◌, ◌≢◌, ◌⊎◌, inl, inr, refl, sym, subst,
  ◌∙◌, ap, ◌||◌, ◌∷◌, arith, ltb, ltb→lt, ltb_false→le, ◌==◌, Bool-cases, ==_iff,
}
use se_l4cp_poc.Prelude.Words.{u32, u64}
use se_l4cp_poc.Layout.{base_vspace_cap}
use se_l4cp_poc.Machine.State.{Event, stored8, stored32, Trace, World, Env, temp_page_vaddr}
use se_l4cp_poc.Machine.Run.{and_then, ◌>>=◌}
use se_l4cp_poc.Machine.Leaves.{Returns, Returns-then, Returns-map, Returns-and}
use se_l4cp_poc.Load.{Cursor, write_elf_data, ensure_page_is_allocated, write_step, write_bytes}
use se_l4cp_poc.Load.Window.{IsHandle, ensured}
use se_l4cp_poc.Load.Frames.{seen_by, View, page_of, write_window, IsDocumented}
use se_l4cp_poc.Load.Placed.{ensured-Opened, ensured-same}
use se_l4cp_poc.Load.Shown.{Facts, Faces, Upto, opened-Faces, stored-Faces}
use se_l4cp_poc.Load.Segment.{moved}
use se_l4cp_poc.Paging.Fresh.{page_idx}

module _ (e : Env) (view : Trace → View) (documented : IsDocumented e view) (F : Facts)
    (image : ℕ → ℕ) (start : ℕ) (below : (a x : ℕ) → F a x → page_of a < page_of start)
    (pd p_flags : ℕ) where
  abbrev pub vspace : ℕ
  vspace = u32 (base_vspace_cap + pd)

  abbrev pub SeenUpto : (end page : ℕ) → World → Type 0
  SeenUpto end page w = Faces (Upto F image start end) vspace page (seen_by view w)

  earlier_page :
      (v a x : ℕ) → start ≤ v → v % 0x1000 ≡ 0 → Upto F image start v a x → page_of a ≢ page_of v
  earlier_page v a x begun edge (inl f) same = omega (arith, below a x f, same)
  earlier_page v a x begun edge (inr (lo, hi, is)) same = omega (arith, hi, same, edge)

  -- The page for the next address is seen.
  next_page :
      (v b handle : ℕ) (w : World)
      → start ≤ v
      → 1 ≤ handle
      → v % 0x1000 + b ≤ 0x1000
      → SeenUpto (v + b) (page_of v) w
      → Returns
          (λ _ w'. SeenUpto (v + b) (page_of (v + b)) w')
          (ensure_page_is_allocated handle (v + b) pd p_flags e w)
  next_page v b handle w begun real fits h =
      elim (Bool-cases ((handle == 0) || ((v + b) % 0x1000 == 0))) [
        | inl new ↦
            Returns-map _ _ (ensure_page_is_allocated handle (v + b) pd p_flags e w)
              (ensured-Opened e view documented pd handle (v + b) p_flags w new)
              λ _ w' now.
                let edge : (v + b) % 0x1000 ≡ 0 = ground (arith, real, new) in
                subst (Faces _ vspace (page_of (v + b))) (sym now.1) (
                  opened-Faces (Upto F image start (v + b)) vspace (v + b) _ h.shows
                    λ a x f. earlier_page (v + b) a x (omega (arith, begun)) edge f)
        | inr old ↦
            Returns-map _ _ (ensure_page_is_allocated handle (v + b) pd p_flags e w)
              (ensured-same e view documented pd handle (v + b) p_flags w old)
              λ _ w' same.
                let inside : (v + b) % 0x1000 ≢ 0 = λ edge. ground (arith, old, edge) in
                let page : page_of v ≡ page_of (v + b) = omega (arith, fits, inside) in
                subst (Faces _ vspace (page_of (v + b))) (sym same)
                  (subst (λ p. SeenUpto (v + b) p w) page h)
      ]

  module _ (source : ℕ → ℕ) (first pd_id_vaddr : ℕ) (aligned : pd_id_vaddr % 4 ≡ 0) where
    -- An address is not behind the first byte of the variable for the PD's identifier.
    abbrev pub Outside : ℕ → Type 0
    Outside v = start ≤ pd_id_vaddr → (v ≤ pd_id_vaddr) ⊎ (pd_id_vaddr + 4 ≤ v)

    -- What the image has at an address is what is written there.
    abbrev pub Agrees : ℕ → Type 0
    Agrees v =
        (v ≡ pd_id_vaddr → (k : ℕ) → k < 4 → pd / 2 ^ (8 * k) % 2 ^ 8 ≡ image (v + k))
        × (v ≢ pd_id_vaddr → Outside v → source (first + (v - start)) ≡ image v)

    pub record Writing (c : Cursor) (w : World) : Type 0 where
      pub begun : start ≤ c.current_vaddr
      pub handle : IsHandle e c.current_vaddr c.dst_write
      pub read : c.src_read ≡ first + (c.current_vaddr - start)
      pub outside : Outside c.current_vaddr
      pub faces : SeenUpto c.current_vaddr (page_of c.current_vaddr) w

    abbrev Wrote : Cursor → (ℕ × Cursor) → World → Type 0
    Wrote c r w =
        (1 ≤ r.0) × (r.0 ≤ 4) × (r.1.current_vaddr ≡ c.current_vaddr + r.0) × Writing r.1 w

    stored_then_next :
        (b : ℕ) (ev : Event) (bytes : ℕ → ℕ) (c : Cursor) (w : World)
        → Writing c w
        → c.current_vaddr + 4 < 2 ^ 64
        → (1 ≤ b) × (b ≤ 4)
        → c.current_vaddr % 0x1000 + b ≤ 0x1000
        → Outside (c.current_vaddr + b)
        → ((k : ℕ) → k < b → bytes k ≡ image (c.current_vaddr + k))
        → view (ev ∷ w.trace) ≡ write_window e (view w.trace) c.dst_write b bytes
        → Returns (Wrote c) (
            and_then
              (ensure_page_is_allocated
                (c.dst_write + b)
                (u64 (c.current_vaddr + b))
                pd
                p_flags
                e
                (record w { trace = ev ∷ w.trace }))
              (moved e b c))
    stored_then_next b ev bytes c w writing small wide fits outside agree now =
        let exact : u64 (c.current_vaddr + b) ≡ c.current_vaddr + b =
          omega (arith, small, wide.1) in
        let u : World = record w { trace = ev ∷ w.trace } in
        let v = c.current_vaddr in
        let handle_here : c.dst_write ≡ temp_page_vaddr e + c.current_vaddr % 0x1000 =
          writing.handle in
        rw exact (
          Returns-then (λ dst w'. IsHandle e (v + b) dst × SeenUpto (v + b) (page_of (v + b)) w') _
            (ensure_page_is_allocated (c.dst_write + b) (v + b) pd p_flags e u) _
            (Returns-and _ _ (ensure_page_is_allocated (c.dst_write + b) (v + b) pd p_flags e u)
              ((ensured (c.dst_write + b) (v + b) pd p_flags
                  (λ inside. omega (arith, handle_here, fits, inside))).from
                u)
              (next_page v b (c.dst_write + b) u writing.begun (omega (arith, wide.0)) fits (
                subst (λ x. Faces (Upto F image start (v + b)) vspace (page_of v) (x, page_idx w))
                  (sym (now ∙ rw handle_here refl))
                  (stored-Faces e F image start vspace v b bytes (seen_by view w) writing.begun fits
                    agree below writing.faces))))
            λ dst w' h.
              let (at, going) =
                subst
                  (λ x.
                    (x ≡ v + b)
                    × Writing
                        (record { src_read = c.src_read + b; dst_write = dst; current_vaddr = x })
                        w')
                  (sym exact)
                  (
                    refl,
                    record {
                      begun = omega (arith, writing.begun);
                      handle = h.0;
                      read = omega (arith, writing.read, writing.begun);
                      outside = outside;
                      faces = h.1;
                    },
                  ) in
              (wide.0, wide.1, at, going))

    Outside-next : (v : ℕ) → v ≢ pd_id_vaddr → Outside v → Outside (v + 1)
    Outside-next v beside outside inside = elim (outside inside) [
      | inl before ↦ inl (omega (arith, before, beside))
      | inr behind ↦ inr (omega (arith, behind))
    ]

    byte_agrees :
        (c : Cursor) (w : World)
        → Writing c w
        → (k : ℕ) → k < 1
        → source (first + (c.current_vaddr - start)) ≡ image c.current_vaddr
        → source c.src_read ≡ image (c.current_vaddr + k)
    byte_agrees c w writing k one agree =
        let same : c.current_vaddr ≡ c.current_vaddr + k = omega (arith, one) in
        ap source writing.read ∙ agree ∙ ap image same

    write_step-Wrote :
        (c : Cursor) (w : World)
        → Writing c w
        → c.current_vaddr + 4 < 2 ^ 64
        → Agrees c.current_vaddr
        → Returns (Wrote c) (write_step source pd_id_vaddr pd p_flags c e w)
    unfolding write_step write_elf_data ◌>>=◌
    write_step-Wrote c w writing small agrees = elim (Bool-cases (c.current_vaddr == pd_id_vaddr)) [
      | inl is ↦
          let at : c.current_vaddr ≡ pd_id_vaddr = (==_iff _ _).0 is in
          rw is (
            stored_then_next 4 (stored32 c.dst_write pd) _ c w writing small
              (omega arith, omega arith) (omega (arith, at, aligned)) (λ _. inr (omega (arith, at)))
              (agrees.0 at) (documented (stored32 c.dst_write pd) w.trace))
      | inr other ↦
          let beside : c.current_vaddr ≢ pd_id_vaddr = λ p. ground (arith, other, p) in
          rw other (
            stored_then_next 1 (stored8 c.dst_write (source c.src_read)) _ c w writing small
              (omega arith, omega arith) (omega arith) (Outside-next _ beside writing.outside)
              (λ k one. byte_agrees c w writing k one (agrees.1 beside writing.outside))
              (documented (stored8 c.dst_write (source c.src_read)) w.trace))
    ]

    -- The loop comes to `hi` at least, and to three bytes behind it at most.
    pub write_bytes-Writing :
        (fuel count j lo hi : ℕ) (c : Cursor) (w : World)
        → (count + 4 ≤ 2 ^ 64) × (hi + 8 ≤ 2 ^ 64)
        → (lo ≤ c.current_vaddr) × (c.current_vaddr + count ≡ hi + j) × (c.current_vaddr ≤ hi + 3)
        → ((v : ℕ) → lo ≤ v → v < hi → Agrees v)
        → Writing c w
        → Returns
            (λ d w'. (hi ≤ d.current_vaddr) × (d.current_vaddr ≤ hi + 3) × Writing d w')
            (write_bytes fuel source count pd_id_vaddr pd p_flags j c e w)
    unfolding write_bytes ◌>>=◌
    write_bytes-Writing zero count j lo hi c w small place agrees writing = tt
    write_bytes-Writing (suc fuel) count j lo hi c w small place agrees writing =
        elim (Bool-cases (ltb j count)) [
          | inl more ↦
              let inside : j < count = ltb→lt j count more in
              rw (more, write_bytes)
                (Returns-then _ _ (write_step source pd_id_vaddr pd p_flags c e w) _
                  (write_step-Wrote c w writing (omega (arith, inside, place.1, small.1))
                    (agrees c.current_vaddr place.0 (omega (arith, inside, place.1))))
                  λ r w' h.
                    let exact : u64 (j + r.0) ≡ j + r.0 = omega (arith, inside, small.0, h.1) in
                    rw exact (
                      write_bytes-Writing fuel count (j + r.0) lo hi r.1 w' small
                        (
                          omega (arith, place.0, h.2),
                          omega (arith, place.1, h.2),
                          omega (arith, inside, h.1, h.2, place.1),
                        )
                        agrees h.3))
          | inr done ↦
              rw (done, write_bytes)
                (omega (arith, place.1, ltb_false→le j count done), place.2, writing)
        ]
