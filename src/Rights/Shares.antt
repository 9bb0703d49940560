-- ===== src/Rights/Shares.antt =====
-- The loop of `sel4cp_internal_set_up_access_rights` over the pages of a memory region.
use se_l4cp_poc.Prelude.{
  ℕ, zero, suc, ◌+◌, ◌*◌, ◌^◌, ◌≤◌, ◌<◌, ◌≡◌, ◌≢◌, ◌⊎◌, sym, ap, subst, ◌∙◌, inl, inr, arith, ◌==◌,
  ==_iff, ==_false, Bool-cases,
}
use se_l4cp_poc.Prelude.Words.{u32, u64}
use se_l4cp_poc.Kernel.{sel4_all_rights}
use se_l4cp_poc.Layout.{
  base_cnode_cap, base_vspace_cap, base_shared_memory_region_pages, pd_cap_bits,
}
use se_l4cp_poc.Machine.State.{cnode_copy, arm_page_map, Trace, World, Env}
use se_l4cp_poc.Machine.Run.{final, invoke, try, pure, ◌>>=◌}
use se_l4cp_poc.Machine.Behaves.{Behaves, Behaves-then, final-Behaves}
use se_l4cp_poc.Paging.{set_up_required_paging_structures}
use se_l4cp_poc.Paging.Halts.{Halts-set_up_required_paging_structures}
use se_l4cp_poc.Rights.{map_shared_page, share_page, share_pages}
use se_l4cp_poc.Rights.Unshared.{unshared-set_up}
use se_l4cp_poc.Rights.Regions.{
  Sharing, IsSharing, page_cap, page_vaddr, Shared, Shared-mapped, Shared-copied,
}

module _ (e : Env) (sharing : Trace → Sharing) (law : IsSharing e.current_pd_id sharing) where
  module _ (pd id vaddr next rights attr : ℕ) (other : e.current_pd_id ≢ pd) (s : Sharing)
      (m : ℕ) where
    -- The first `n` pages are mapped in the VSpace of `pd`, which has capabilities for `k` of them.
    abbrev pub Have : (n k : ℕ) → World → Type 0
    Have n k w = Shared e.current_pd_id pd id vaddr next rights attr s n k (sharing w.trace)

    -- The loop has stopped at a page of the region, which may be mapped already.
    abbrev pub Stopped : World → Type 0
    Stopped w = (k : ℕ) × (k < m) × (Have k k w ⊎ Have (k + 1) k w)

    -- Page tables, before page `j`.
    pub tables_kept :
        (j : ℕ) (w : World)
        → Have j j w
        → (Q : World → Type 0) → ((v : World) → Have j j v → Q v)
        → Behaves
            (λ _. Have j j)
            Q
            (set_up_required_paging_structures (page_vaddr vaddr j) (base_vspace_cap + pd) e w)
    tables_kept j w have Q rest =
        let tables =
          set_up_required_paging_structures (page_vaddr vaddr j) (base_vspace_cap + pd) in
        let now : Have j j (final (tables e w)) =
          subst (Shared e.current_pd_id pd id vaddr next rights attr s j j)
            (sym
              ((unshared-set_up e sharing law (page_vaddr vaddr j) (base_vspace_cap + pd)).from w))
            have in
        final-Behaves (Have j j) Q (tables e w) now (rest _ now)
          ((Halts-set_up_required_paging_structures _ _).from w)

    -- A call to map page `j` that is refused, with its messages.
    pub map_refused :
        (j : ℕ) (w : World)
        → Have j j w
        → e.kernel w.trace
            (arm_page_map (page_cap id j) (base_vspace_cap + pd) (page_vaddr vaddr j) rights attr)
          ≢ 0
        → (P Q : World → Type 0) → ((v : World) → Have j j v → Q v)
        → Behaves
            (λ _. P)
            Q
            (map_shared_page
              (page_cap id j)
              (base_vspace_cap + pd)
              (page_vaddr vaddr j)
              rights
              attr
              e
              w)
    unfolding map_shared_page invoke ◌>>=◌
    map_refused j w have refusal P Q rest = rw (==_false _ _ refusal) (
        rest _ (
          subst (Shared e.current_pd_id pd id vaddr next rights attr s j j)
            (sym (
              law.puts_law _ _
              ∙ law.puthex64_law _ _
              ∙ law.puts_law _ _
              ∙ law.refused_law _ _ w.trace refusal))
            have))

    module _ (j : ℕ) (lt : j < m) (own_small : e.current_pd_id < 64) (pd_small : pd < 64) where
      mapped_now :
          (w : World)
          → Have j j w
          → Behaves
              (λ _. Have (j + 1) j)
              Stopped
              (map_shared_page
                (page_cap id j)
                (base_vspace_cap + pd)
                (page_vaddr vaddr j)
                rights
                attr
                e
                w)
      unfolding map_shared_page invoke ◌>>=◌
      mapped_now w have =
          let call =
            arm_page_map (page_cap id j) (base_vspace_cap + pd) (page_vaddr vaddr j) rights attr in
          elim (Bool-cases (e.kernel w.trace call == 0)) [
            | inl accept ↦
                let is : e.kernel w.trace call ≡ 0 = (==_iff _ _).0 accept in
                rw (accept, is)
                  (subst (Shared e.current_pd_id pd id vaddr next rights attr s (j + 1) j)
                    (sym (law.map_law _ _ _ _ _ w.trace))
                    (Shared-mapped _ pd id vaddr next rights attr other s _ j have))
            | inr refusal ↦
                map_refused j w have (λ p. ground (arith, refusal, p)) (Have (j + 1) j) Stopped
                  (λ v h. (j, lt, inl h))
          ]

      copied_now :
          (w : World)
          → Have (j + 1) j w
          → Behaves
              (λ _. Have (j + 1) (j + 1))
              Stopped
              (try
                (cnode_copy
                  (base_cnode_cap + pd)
                  (next + j)
                  pd_cap_bits
                  (base_cnode_cap + e.current_pd_id)
                  (page_cap id j)
                  pd_cap_bits
                  sel4_all_rights)
                e
                w)
      unfolding try invoke ◌>>=◌
      copied_now w have =
          let call =
            cnode_copy (base_cnode_cap + pd) (next + j) pd_cap_bits
              (base_cnode_cap + e.current_pd_id) (page_cap id j) pd_cap_bits sel4_all_rights in
          elim (Bool-cases (e.kernel w.trace call == 0)) [
            | inl accept ↦
                let is : e.kernel w.trace call ≡ 0 = (==_iff _ _).0 accept in
                rw (accept, is)
                  (subst (Shared e.current_pd_id pd id vaddr next rights attr s (j + 1) (j + 1))
                    (sym (law.copy_law _ _ _ _ _ _ _ w.trace))
                    (Shared-copied _ pd id vaddr next rights attr other s _ j have))
            | inr refusal ↦ rw refusal (
              j,
              lt,
              inr (
                  subst (Shared e.current_pd_id pd id vaddr next rights attr s (j + 1) j)
                    (sym (law.refused_law call _ w.trace (λ p. ground (arith, refusal, p)))) have),
            )
          ]

      pub page_shared :
          (w : World)
          → base_shared_memory_region_pages + id + j < 2 ^ 64
          → vaddr + j * 0x1000 < 2 ^ 64
          → Have j j w
          → Behaves
              (λ _. Have (j + 1) (j + 1))
              Stopped
              (share_page pd id vaddr rights attr (next + j) j e w)
      unfolding share_page ◌>>=◌
      page_shared w cap_small vaddr_small have =
          let cap : u64 (page_cap id j) ≡ page_cap id j = omega (arith, cap_small) in
          let at : u64 (page_vaddr vaddr j) ≡ page_vaddr vaddr j = omega (arith, vaddr_small) in
          let vspace : u32 (base_vspace_cap + pd) ≡ base_vspace_cap + pd =
            omega (arith, pd_small) in
          let cnode : u32 (base_cnode_cap + pd) ≡ base_cnode_cap + pd = omega (arith, pd_small) in
          let own : u32 (base_cnode_cap + e.current_pd_id) ≡ base_cnode_cap + e.current_pd_id =
            omega (arith, own_small) in
          let tables =
            set_up_required_paging_structures (page_vaddr vaddr j) (base_vspace_cap + pd) in
          rw (cap, at, vspace, cnode, own)
            (Behaves-then (λ _. Have j j) (λ _. Have (j + 1) (j + 1)) Stopped (tables e w) _
              (tables_kept j w have Stopped (λ v h. (j, lt, inl h)))
              λ _ u have'.
                Behaves-then (λ _. Have (j + 1) j) (λ _. Have (j + 1) (j + 1)) Stopped
                  (map_shared_page _ _ _ rights attr e u) _ (mapped_now u have')
                  λ _ v have''. copied_now v have'')

    -- The loop, from page `j` with `n` rounds left.
    pub pages_shared :
        (n j : ℕ) (w : World)
        → j + n ≡ m
        → e.current_pd_id < 64
        → pd < 64
        → base_shared_memory_region_pages + id + m < 2 ^ 64
        → vaddr + m * 0x1000 ≤ 2 ^ 64
        → next + m < 2 ^ 64
        → Have j j w
        → Behaves
            (λ next' v. (next' ≡ next + m) × Have m m v)
            Stopped
            (share_pages n pd id vaddr rights attr (next + j) j e w)
    unfolding share_pages ◌>>=◌ pure
    pages_shared zero j w is own_small pd_small cap_small vaddr_small next_small have =
        let last : j ≡ m = omega (arith, is) in
        (ap (λ x. next + x) last, subst (λ x. Have x x w) last have)
    pages_shared (suc n) j w is own_small pd_small cap_small vaddr_small next_small have =
        let after : u64 (next + j + 1) ≡ next + (j + 1) = omega (arith, is, next_small) in
        rw after (
          Behaves-then (λ _. Have (j + 1) (j + 1)) _ Stopped
            (share_page pd id vaddr rights attr (next + j) j e w) _
            (page_shared j (omega (arith, is)) own_small pd_small w (omega (arith, is, cap_small))
              (omega (arith, is, vaddr_small)) have)
            λ _ v have'.
              pages_shared n (j + 1) v (omega (arith, is)) own_small pd_small cap_small vaddr_small
                next_small have')
