-- ===== src/Create/Bestowed.antt =====
-- All pools together: what `sel4cp_pd_create` gives to a PD that may create PDs itself.
use se_l4cp_poc.Prelude.{ℕ, zero, suc, ◌+◌, ◌≡◌, ◌≢◌, refl, sym, ap, subst, ◌∙◌, ◌⊎◌, inl, inr, ◌∷◌}
use se_l4cp_poc.Layout.{
  Pool, tcbs, notifications, cnodes, schedcontexts, vspaces, page_upper_directories,
  page_directories, page_tables, pages,
}
use se_l4cp_poc.Machine.State.{Call, printed, Trace, idx, World, Env}
use se_l4cp_poc.Machine.Run.{
  Run, ok, fail, Prog, final, emit, invoke, increment, try, on_fail, ◌>>=◌, ◌>>◌,
}
use se_l4cp_poc.Machine.Bounds.{IsBounded, Evolves-IsBounded}
use se_l4cp_poc.Machine.Leaves.{Leaves, Leaves-pure, Leaves-bind, Leaves-invoke, leaves_rules}
use se_l4cp_poc.Machine.Reasons.{Reason, Reason-Printed, last_call}
use se_l4cp_poc.Create.{move_pool_cap, move_pool_caps_from, move_pool_caps, move_unused_caps}
use se_l4cp_poc.Create.Bounds.{Any}
use se_l4cp_poc.Create.Steps.{Goes-move_pool_caps}
use se_l4cp_poc.Create.Slots.{Slots, IsMoving}
use se_l4cp_poc.Create.Handover.{HandsOver, own_cnode, move_pool_caps-HandsOver}
use se_l4cp_poc.Create.Shares.{
  rank, child_share, share, other_idx, share_elsewhere, share_before, share_after, all_shared,
}
use se_l4cp_poc.Create.Endowment.{Endowed, Endowed-nothing, Endowed-more}

abbrev idx_of : Pool → World → ℕ
idx_of q w = idx q w.alloc_state

module _ {e : Env} (target : ℕ) (q p : Pool) (other : q ≢ p) where
  takes_other : Leaves (idx_of q) e (increment p)
  unfolding increment
  takes_other = record { from = λ w. other_idx q p _ _ other }

  takes_none : (c : Call) → Leaves (idx_of q) e (invoke c)
  takes_none c = Leaves-invoke c (λ answer w. refl)

  Leaves-move_pool_cap : (i : ℕ) → Leaves (idx_of q) e (move_pool_cap target p i)
  unfolding move_pool_cap try
  Leaves-move_pool_cap i = search (leaves_rules, takes_other, takes_none) depth 12

  Leaves-move_pool_caps_from : (n i : ℕ) → Leaves (idx_of q) e (move_pool_caps_from n target p i)
  unfolding move_pool_caps_from
  Leaves-move_pool_caps_from zero i = Leaves-pure tt
  Leaves-move_pool_caps_from (suc n) i =
      Leaves-bind _ _ (Leaves-move_pool_cap i) (λ _. Leaves-move_pool_caps_from n (i + 1))

  Leaves-move_pool_caps : (n : ℕ) → Leaves (idx_of q) e (move_pool_caps target p n)
  unfolding move_pool_caps
  Leaves-move_pool_caps n = Leaves-move_pool_caps_from n 0

module _ (contents : Trace → Slots) (e : Env) (target : ℕ) where
  -- All pools are handed over; or the run fails, since a pool has no object left or the last call
  -- was refused.
  abbrev pub Bestows : World → Run (Unit {0}) → Type 0
  Bestows w r =
      ((v : World) × (r ≡ ok tt v) × Endowed contents e target child_share w v)
      ⊎ ((v : World) × (r ≡ fail v) × Reason ⊥ v)

  -- What `m` does behind the first `k` pools.
  abbrev Continues : ℕ → World → Prog (Unit {0}) → Type 0
  Continues k w m =
      (v : World)
      → Endowed contents e target (share k) w v
      → IsBounded v.alloc_state
      → Bestows w (m e v)

module _ (contents : Trace → Slots) (kernel_moves : IsMoving contents) (e : Env) (target : ℕ)
    (apart : target ≢ own_cnode e) (w : World) where
  abbrev Step : ℕ → Run (Unit {0}) → Type 0
  Step k r =
      ((u : World) × (r ≡ ok tt u)
        × Endowed contents e target (share (k + 1)) w u
        × IsBounded u.alloc_state)
      ⊎ ((u : World) × (r ≡ fail u) × Reason ⊥ u)

  move_pool_caps-Step :
      (k : ℕ) (p : Pool) (v : World)
      → rank p ≡ k
      → Endowed contents e target (share k) w v
      → IsBounded v.alloc_state
      → Step k (move_pool_caps target p (child_share p) e v)
  move_pool_caps-Step k p v at_k before bounded =
      by_ending (move_pool_caps-HandsOver contents kernel_moves e target apart p (child_share p) v)
    where
      bounded_after :
          (u : World)
          → move_pool_caps target p (child_share p) e v ≡ ok tt u
          → IsBounded u.alloc_state
      bounded_after u done =
          subst (λ r. IsBounded (final r).alloc_state) done
            (Evolves-IsBounded
              ((Goes-move_pool_caps {Q = Any} {e = e} (λ ev _. tt) target p (child_share p)).from v)
              bounded)

      by_ending :
          HandsOver contents e target p
            (child_share p)
            0
            v
            (move_pool_caps target p (child_share p) e v)
          → Step k (move_pool_caps target p (child_share p) e v)
      by_ending (m, u, filled, counted, inl (done, all)) = inl (
        u,
        done,
        Endowed-more contents e target w v u p (share k) (share (k + 1)) m before
            (share_before k p at_k) (share_after k p at_k ∙ sym all)
            (λ q other. share_elsewhere k q p at_k other) (bounded_after u done) counted
            (λ q other.
              sym (ap (λ r. idx_of q (final r)) done)
              ∙ (Leaves-move_pool_caps target q p other (child_share p)).from v)
            filled,
        bounded_after u done,
      )
      by_ending (m, u, filled, counted, inr (failed, fewer, inl empty)) =
          inr (u, failed, inl (p, empty))
      by_ending (m, u, filled, counted, inr (failed, fewer, inr (c, a, t, not, is))) =
          inr (u, failed, inr (inl (a, (not, c, ap last_call is))))

  last_step : Continues contents e target 8 w (move_pool_caps target pages (child_share pages))
  last_step v before bounded = elim (move_pool_caps-Step 8 pages v refl before bounded) [
    | inl (u, done, after, _) ↦
        inl (u, done, subst (λ given. Endowed contents e target given w u) all_shared after)
    | inr (u, failed, why) ↦ inr (u, failed, why)
  ]

  one_more :
      (k : ℕ) (p : Pool) (rest : Prog (Unit {0}))
      → rank p ≡ k
      → Continues contents e target (k + 1) w rest
      → Continues contents e target k w (move_pool_caps target p (child_share p) >> rest)
  unfolding ◌>>=◌
  one_more k p rest at_k later v before bounded =
      elim (move_pool_caps-Step k p v at_k before bounded) [
        | inl (u, done, after, still) ↦ rw done (later u after still)
        | inr (u, failed, why) ↦ rw failed (inr (u, refl, why))
      ]

  all_pools :
      IsBounded w.alloc_state
      → Bestows contents e target w (
          (move_pool_caps target tcbs (child_share tcbs)
              >> (move_pool_caps target notifications (child_share notifications)
                  >> (move_pool_caps target cnodes (child_share cnodes)
                      >> (move_pool_caps target schedcontexts (child_share schedcontexts)
                          >> (move_pool_caps target vspaces (child_share vspaces)
                              >> (move_pool_caps target page_upper_directories
                                    (child_share page_upper_directories)
                                  >> (move_pool_caps target page_directories
                                        (child_share page_directories)
                                      >> (move_pool_caps target page_tables
                                            (child_share page_tables)
                                          >> move_pool_caps target pages (child_share pages)))))))))
            e w)
  all_pools bounded =
      one_more 0 tcbs _ refl
        (one_more 1 notifications _ refl (
          one_more 2 cnodes _ refl (
            one_more 3 schedcontexts _ refl (
              one_more 4 vspaces _ refl (
                one_more 5 page_upper_directories _ refl (
                  one_more 6 page_directories _ refl (one_more 7 page_tables _ refl last_step)))))))
        w (Endowed-nothing contents e target w) bounded

  -- Where the kernel moves capabilities as it documents, the new PD's CNode is not the current PD's
  -- own, and the indices of `alloc_state` are within their pools: if the unused objects for a PD
  -- that may create PDs are moved without an error, then, in each of the nine pools, the first
  -- slots of the new CNode have the next objects of the current PD, in order and as many as the
  -- source names for the pool, which `alloc_state` has counted; no other slot of a pool has changed
  -- in either CNode but those that the objects came from. Otherwise the call fails, since a pool
  -- has no object left or the last call to the kernel was refused.
  pub move_unused_caps-Bestows :
      IsBounded w.alloc_state → Bestows contents e target w (move_unused_caps target e w)
  unfolding move_unused_caps on_fail emit
  move_unused_caps-Bestows bounded = elim (all_pools bounded) [
    | inl (v, done, endowed) ↦ rw done (inl (v, refl, endowed))
    | inr (v, failed, why) ↦
        let told = record v {
          trace =
              printed
                "sel4cp_pd_create: failed to move capabilities for unused pool objects to the new PD\n"
              ∷ v.trace;
        } in
        rw failed (inr (told, refl, Reason-Printed ⊥ v told (refl, refl) why))
  ]
