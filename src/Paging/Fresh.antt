-- ===== src/Paging/Fresh.antt =====
-- `sel4cp_internal_allocate_page` and the index of the pool of pages.
use se_l4cp_poc.Prelude.{
  ℕ, ◌+◌, ◌<◌, ◌≡◌, refl, subst, inl, inr, arith, leb, leb_false→lt, ◌==◌, Bool-cases,
}
use se_l4cp_poc.Layout.{pages, pool_num, pool_base}
use se_l4cp_poc.Kernel.{sel4_no_error}
use se_l4cp_poc.Machine.State.{World, Env, Event, Call}
use se_l4cp_poc.Machine.Run.{
  Run, ok, fail, crash, out_of_fuel, final, and_then, emit, invoke, increment, ◌>>=◌,
}
use se_l4cp_poc.Machine.Leaves.{Leaves, Leaves-emit, Leaves-invoke, leaves_rules}
use se_l4cp_poc.Machine.Halts.{HasEnded}
use se_l4cp_poc.Paging.Halts.{Halts-set_up_required_paging_structures}
use se_l4cp_poc.Paging.{
  Level, upper_directory, directory, table, level_pool, conclude_level, ensure_level,
  set_up_required_paging_structures, conclude_page, map_new_page, allocate_page,
}

abbrev pub page_idx : World → ℕ
page_idx w = w.alloc_state.page_idx

module _ {e : Env} where
  takes_no_page-emit : (ev : Event) → Leaves page_idx e (emit ev)
  takes_no_page-emit ev = Leaves-emit ev (λ w. refl)

  takes_no_page-invoke : (c : Call) → Leaves page_idx e (invoke c)
  takes_no_page-invoke c = Leaves-invoke c (λ answer w. refl)

  takes_no_page-increment : (level : Level) → Leaves page_idx e (increment (level_pool level))
  unfolding increment
  takes_no_page-increment upper_directory = record { from = λ w. refl }
  takes_no_page-increment directory = record { from = λ w. refl }
  takes_no_page-increment table = record { from = λ w. refl }

  takes_no_page-ensure_level :
      (level : Level) (vaddr vspace : ℕ) → Leaves page_idx e (ensure_level level vaddr vspace)
  unfolding ensure_level conclude_level
  takes_no_page-ensure_level level vaddr vspace =
      search (leaves_rules, takes_no_page-emit, takes_no_page-invoke, takes_no_page-increment) depth
        16

  takes_no_page-set_up :
      (vaddr vspace : ℕ) → Leaves page_idx e (set_up_required_paging_structures vaddr vspace)
  unfolding set_up_required_paging_structures
  takes_no_page-set_up vaddr vspace = search (leaves_rules, takes_no_page-ensure_level)

-- A page is handed out: it was in the pool as number `n`, and the next one has the number after
-- that.
abbrev pub HandsOut : ℕ → Run ℕ → Type 0
HandsOut n (ok cap v) =
    (n < pool_num pages) × (cap ≡ pool_base pages + n) × (v.alloc_state.page_idx ≡ n + 1)
HandsOut n (fail v) = v.alloc_state.page_idx ≡ n
HandsOut n (crash err v) = v.alloc_state.page_idx ≡ n
HandsOut n (out_of_fuel v) = ⊥

module _ (e : Env) (vaddr vspace p_flags : ℕ) where
  concluded :
      (w : World) (err : ℕ)
      → w.alloc_state.page_idx < pool_num pages
      → HandsOut w.alloc_state.page_idx (conclude_page err e w)
  unfolding conclude_page increment ◌>>=◌
  concluded w err room = elim (Bool-cases (err == sel4_no_error)) [
    | inl accepted ↦ rw accepted (room, omega (arith, room), refl)
    | inr refused ↦ rw refused refl
  ]

  new_page : (w : World) → HandsOut w.alloc_state.page_idx (map_new_page vaddr vspace p_flags e w)
  unfolding map_new_page invoke ◌>>=◌
  new_page w = elim (Bool-cases (leb (pool_num pages) w.alloc_state.page_idx)) [
    | inl full ↦ rw full refl
    | inr room ↦ rw room (concluded _ _ (leb_false→lt _ _ room))
  ]

  behind :
      (n : ℕ) (r : Run (Unit {0}))
      → (final r).alloc_state.page_idx ≡ n
      → HasEnded r
      → HandsOut n (and_then r (λ _. map_new_page vaddr vspace p_flags e))
  behind n (ok a v) same ended =
      subst (λ x. HandsOut x (map_new_page vaddr vspace p_flags e v)) same (new_page v)
  behind n (fail v) same ended = same
  behind n (crash err v) same ended = same
  behind n (out_of_fuel v) same ended = ended

  -- Whatever the kernel answers: if `sel4cp_internal_allocate_page` returns a capability, it is
  -- that of the first page of the pool that has not been handed out, of which there was one, and
  -- the page counts as handed out from then on. Otherwise it hands out none. It always ends.
  pub allocate_page-HandsOut :
      (w : World) → HandsOut w.alloc_state.page_idx (allocate_page vaddr vspace p_flags e w)
  unfolding allocate_page ◌>>=◌
  allocate_page-HandsOut w =
      behind _ (set_up_required_paging_structures vaddr vspace e w)
        ((takes_no_page-set_up vaddr vspace).from w)
        ((Halts-set_up_required_paging_structures vaddr vspace).from w)
