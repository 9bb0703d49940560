-- ===== src/Load/Placed.antt =====
-- What the functions of `Paging` do to the frames.
use se_l4cp_poc.Prelude.{
  ℕ, ◌+◌, ◌-◌, ◌%◌, ◌<◌, ◌≡◌, true, false, refl, subst, ◌∙◌, ap, inl, inr, ◌∷◌, arith, leb,
  leb_false→lt, ◌==◌, Bool-cases, String, ◌||◌,
}
use se_l4cp_poc.Prelude.Words.{u32, u64}
use se_l4cp_poc.Kernel.{sel4_no_error}
use se_l4cp_poc.Layout.{pages, pool_num, pool_base, temp_cap, base_vspace_cap}
use se_l4cp_poc.Machine.State.{
  Event, invoked, printed, printed_hex64, Call, arm_page_map, Trace, World, Env,
}
use se_l4cp_poc.Machine.Run.{
  Prog, pure, invoke, increment, on_fail, prepare_temp_page, ◌>>=◌, dbg_puts, dbg_puthex64,
}
use se_l4cp_poc.Machine.Leaves.{
  Leaves, Leaves-emit, Leaves-invoke, leaves_rules, Returns, Returns-then, Returns-or_else,
  Returns-map, final-Returns,
}
use se_l4cp_poc.Caps.{insist, delete_temp_cap}
use se_l4cp_poc.Paging.{
  Level, upper_directory, directory, table, level_pool, level_map, conclude_level, ensure_level,
  set_up_required_paging_structures, conclude_page, map_new_page, allocate_page, ensure_temp_page,
  require, map_temp_page, allocate_page_with_write_handle, mask_bits,
}
use se_l4cp_poc.Paging.Fresh.{page_idx}
use se_l4cp_poc.Load.{ensure_page_is_allocated}
use se_l4cp_poc.Load.Frames.{
  View, Opened, seen_by, effect, accepted, placed, shown, IsDocumented, page_of,
}

module _ (e : Env) (view : Trace → View) (documented : IsDocumented e view) where
  abbrev seen : World → View × ℕ
  seen = seen_by view

  no_effect :
      (ev : Event) (w : World)
      → effect e ev (view w.trace) ≡ view w.trace
      → seen (record w { trace = ev ∷ w.trace }) ≡ seen w
  no_effect ev w h = ap (λ v. (v, page_idx w)) (documented ev w.trace ∙ h)

  unseen-puts : (s : String) → Leaves seen e (dbg_puts s)
  unseen-puts s = Leaves-emit (printed s) (λ w. no_effect (printed s) w refl)

  unseen-puthex64 : (n : ℕ) → Leaves seen e (dbg_puthex64 n)
  unseen-puthex64 n = Leaves-emit (printed_hex64 n) (λ w. no_effect (printed_hex64 n) w refl)

  unseen-map_table :
      (level : Level) (service vspace vaddr attr : ℕ)
      → Leaves seen e (invoke (level_map level service vspace vaddr attr))
  unseen-map_table level service vspace vaddr attr =
      Leaves-invoke (level_map level service vspace vaddr attr) λ answer w.
        no_effect (invoked (level_map level service vspace vaddr attr) answer) w
          (by_answer level answer _)
    where
      by_answer :
          (level : Level) (answer : ℕ) (v : View)
          → effect e (invoked (level_map level service vspace vaddr attr) answer) v ≡ v
      by_answer upper_directory answer v = ground arith
      by_answer directory answer v = ground arith
      by_answer table answer v = ground arith

  unseen-increment : (level : Level) → Leaves seen e (increment (level_pool level))
  unfolding increment
  unseen-increment upper_directory = record { from = λ w. refl }
  unseen-increment directory = record { from = λ w. refl }
  unseen-increment table = record { from = λ w. refl }

  unseen-prepare_temp_page : Leaves seen e prepare_temp_page
  unfolding prepare_temp_page
  unseen-prepare_temp_page = record { from = λ w. refl }

  unseen-ensure_level :
      (level : Level) (vaddr vspace : ℕ) → Leaves seen e (ensure_level level vaddr vspace)
  unfolding ensure_level conclude_level
  unseen-ensure_level level vaddr vspace =
      search (leaves_rules, unseen-puts, unseen-puthex64, unseen-map_table, unseen-increment) depth
        16

  unseen-set_up :
      (vaddr vspace : ℕ) → Leaves seen e (set_up_required_paging_structures vaddr vspace)
  unfolding set_up_required_paging_structures
  unseen-set_up vaddr vspace = search (leaves_rules, unseen-ensure_level)

  unseen-ensure_temp_page : Leaves seen e ensure_temp_page
  unfolding ensure_temp_page
  unseen-ensure_temp_page =
      search (leaves_rules, unseen-puts, unseen-set_up, unseen-prepare_temp_page) depth 16

  -- Behind a function that hands out a page for the address, in terms of what was seen before it.
  abbrev Handed : (vspace vaddr : ℕ) → View × ℕ → ℕ → World → Type 0
  Handed vspace vaddr s cap v =
      (s.1 < pool_num pages)
      × (cap ≡ pool_base pages + s.1)
      × (seen v ≡ (placed s.0 vspace (page_of vaddr) cap, s.1 + 1))

  accepted_call :
      (call : Call) (answer : ℕ) (t : Trace)
      → (answer == sel4_no_error) ≡ true
      → view (invoked call answer ∷ t) ≡ accepted call (view t)
  accepted_call call answer t accept = documented (invoked call answer) t ∙ rw accept refl

  concluded :
      (w : World) (vspace vaddr rights attr err : ℕ)
      → page_idx w < pool_num pages
      → Returns (Handed vspace vaddr (seen w)) (
          conclude_page err e (record w {
            trace =
                invoked
                  (arm_page_map
                    (u64 (pool_base pages + page_idx w))
                    vspace
                    (page_of vaddr)
                    rights
                    attr)
                  err
                ∷ w.trace;
          }))
  unfolding conclude_page increment ◌>>=◌
  concluded w vspace vaddr rights attr err room = elim (Bool-cases (err == sel4_no_error)) [
    | inl accept ↦
        let slot : u64 (pool_base pages + page_idx w) ≡ pool_base pages + page_idx w =
          omega arith in
        let last : u64 (pool_base pages + (page_idx w + 1) - 1) ≡ pool_base pages + page_idx w =
          omega arith in
        let lasting : (pool_base pages + page_idx w == temp_cap) ≡ false = ground arith in
        rw accept (
          room,
          last,
          rw (last, slot)
              (ap (λ v. (v, page_idx w + 1))
                (accepted_call _ err w.trace accept ∙ rw lasting refl)),
        )
    | inr refusal ↦ rw refusal tt
  ]

  map_new_page-Handed :
      (vspace vaddr p_flags : ℕ) (w : World)
      → Returns (Handed vspace vaddr (seen w)) (map_new_page vaddr vspace p_flags e w)
  unfolding map_new_page invoke mask_bits ◌>>=◌
  map_new_page-Handed vspace vaddr p_flags w =
      elim (Bool-cases (leb (pool_num pages) (page_idx w))) [
        | inl full ↦ rw full tt
        | inr room ↦ rw room (concluded w vspace vaddr _ _ _ (leb_false→lt _ _ room))
      ]

  insist-Returns :
      (call : Call) (message : ℕ → Prog (Unit {0})) (w : World)
      → Returns
          (λ _ v. seen v ≡ (accepted call (view w.trace), page_idx w))
          (insist call message e w)
  unfolding insist invoke ◌>>=◌
  insist-Returns call message w = elim (Bool-cases (e.kernel w.trace call == sel4_no_error)) [
    | inl accept ↦ rw accept (ap (λ v. (v, page_idx w)) (accepted_call call _ w.trace accept))
    | inr refusal ↦ rw refusal (
        Returns-then (λ _ _. Unit {0}) _ (message _ e _) _
          (final-Returns _ (message _ e _) (λ a. tt)) (λ a v h. tt))
  ]

  require-Returns :
      (call : Call) (message : String) (w : World)
      → Returns
          (λ _ v. seen v ≡ (accepted call (view w.trace), page_idx w))
          (require call message e w)
  unfolding require invoke ◌>>=◌
  require-Returns call message w = elim (Bool-cases (e.kernel w.trace call == sel4_no_error)) [
    | inl accept ↦ rw accept (ap (λ v. (v, page_idx w)) (accepted_call call _ w.trace accept))
    | inr refusal ↦ rw refusal tt
  ]

  -- The temporary page shows the frame of a page capability.
  map_temp_page-Returns :
      (cap : ℕ) (w : World)
      → Returns (λ _ v. seen v ≡ (shown (view w.trace) cap, page_idx w)) (map_temp_page cap e w)
  unfolding map_temp_page delete_temp_cap ◌>>=◌
  map_temp_page-Returns cap w = Returns-then _ _ (insist _ _ e w) _ (insist-Returns _ _ w) λ _ u hu.
      Returns-then _ _ (require _ _ e u) _ (require-Returns _ _ u) λ _ v hv.
        Returns-map _ _ (require _ _ e v) (require-Returns _ _ v) λ _ u' h.
          h
          ∙ ap (λ s. (record s.0 { window = s.0.temp_frame }, s.1)) hv
          ∙ ap (λ s. (record s.0 { temp_frame = cap; window = cap }, s.1)) hu

  allocate_page-Handed :
      (vspace vaddr p_flags : ℕ) (w : World)
      → Returns (Handed vspace vaddr (seen w)) (allocate_page vaddr vspace p_flags e w)
  unfolding allocate_page ◌>>=◌
  allocate_page-Handed vspace vaddr p_flags w =
      Returns-then (λ _ u. seen u ≡ seen w) _ (set_up_required_paging_structures vaddr vspace e w) _
        (final-Returns _ (set_up_required_paging_structures vaddr vspace e w)
          (λ _. (unseen-set_up vaddr vspace).from w))
        λ _ u same.
          Returns-map _ _ (map_new_page vaddr vspace p_flags e u)
            (map_new_page-Handed vspace vaddr p_flags u)
            λ cap v h. subst (λ s. Handed vspace vaddr s cap v) same h

  allocate_page_with_write_handle-Opened :
      (vspace vaddr p_flags : ℕ) (w : World)
      → Returns
          (λ _ v. Opened view vspace vaddr (seen w) v)
          (allocate_page_with_write_handle vaddr vspace p_flags e w)
  unfolding allocate_page_with_write_handle ◌>>=◌
  allocate_page_with_write_handle-Opened vspace vaddr p_flags w =
      Returns-then _ _ (allocate_page vaddr vspace p_flags e w) _
        (allocate_page-Handed vspace vaddr p_flags w)
        λ cap u handed.
          Returns-then (λ _ u'. seen u' ≡ seen u) _ (ensure_temp_page e u) _
            (final-Returns _ (ensure_temp_page e u) (λ _. unseen-ensure_temp_page.from u))
            λ _ u' same.
              Returns-then _ _ (map_temp_page cap e u') _ (map_temp_page-Returns cap u') λ _ v h.
                let (room, is, now) = handed in
                (
                  room,
                  h
                      ∙ ap (λ s. (shown s.0 cap, s.1)) (same ∙ now)
                      ∙ ap
                          (λ c. (
                            shown (placed (view w.trace) vspace (page_of vaddr) c) c,
                            page_idx w + 1,
                          ))
                          is,
                )

  -- Whether the page for an address is new or there already.
  pub ensured-Opened :
      (pd handle vaddr p_flags : ℕ) (w : World)
      → ((handle == 0) || (vaddr % 0x1000 == 0)) ≡ true
      → Returns
          (λ _ v. Opened view (u32 (base_vspace_cap + pd)) vaddr (seen w) v)
          (ensure_page_is_allocated handle vaddr pd p_flags e w)
  unfolding ensure_page_is_allocated on_fail
  ensured-Opened pd handle vaddr p_flags w new = rw new (
      Returns-or_else _ (allocate_page_with_write_handle vaddr _ p_flags e w) _
        (allocate_page_with_write_handle-Opened _ vaddr p_flags w))

  pub ensured-same :
      (pd handle vaddr p_flags : ℕ) (w : World)
      → ((handle == 0) || (vaddr % 0x1000 == 0)) ≡ false
      → Returns (λ _ v. seen v ≡ seen w) (ensure_page_is_allocated handle vaddr pd p_flags e w)
  unfolding ensure_page_is_allocated pure
  ensured-same pd handle vaddr p_flags w old = rw old refl
