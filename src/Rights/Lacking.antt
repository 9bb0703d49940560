-- ===== src/Rights/Lacking.antt =====
-- An access right to a memory region of which the current PD has not all pages.
use se_l4cp_poc.Prelude.{
  ℕ, zero, suc, ◌+◌, ◌*◌, ◌^◌, ◌≤◌, ◌<◌, ◌≡◌, ◌≢◌, ◌⊎◌, subst, ◌∙◌, inl, inr, none, arith, ◌==◌,
  Bool-cases,
}
use se_l4cp_poc.Prelude.Words.{u32, u64}
use se_l4cp_poc.Layout.{base_vspace_cap, base_shared_memory_region_pages}
use se_l4cp_poc.Machine.State.{arm_page_map, Trace, Memory, World, Env}
use se_l4cp_poc.Machine.Run.{◌>>=◌}
use se_l4cp_poc.Machine.Behaves.{Behaves, Behaves-then, Behaves-weaken}
use se_l4cp_poc.Paging.{set_up_required_paging_structures}
use se_l4cp_poc.Rights.{map_shared_page, share_page, share_pages, set_up_memory_region}
use se_l4cp_poc.Rights.Regions.{Sharing, IsSharing, page_cap, page_vaddr, Shared-none}
use se_l4cp_poc.Rights.Shares.{Have, Stopped, tables_kept, map_refused, page_shared}
use se_l4cp_poc.Rights.Granted.{region, address, num_pages, page_rights, page_attr, Fits, Granted}

-- What is relied on of the kernel: it refuses to map a page by an empty slot.
abbrev pub IsChecking : Env → (Trace → Sharing) → Type 0
IsChecking e sharing =
    (service vspace vaddr rights attr : ℕ) (t : Trace)
    → (sharing t).holds e.current_pd_id service ≡ none
    → e.kernel t (arm_page_map service vspace vaddr rights attr) ≢ 0

module _ (e : Env) (sharing : Trace → Sharing) (law : IsSharing e.current_pd_id sharing)
    (checking : IsChecking e sharing) (pd id vaddr next rights attr : ℕ)
    (other : e.current_pd_id ≢ pd) (s : Sharing) (k : ℕ)
    (lacking : s.holds e.current_pd_id (page_cap id k) ≡ none) (own_small : e.current_pd_id < 64)
    (pd_small : pd < 64) (cap_small : base_shared_memory_region_pages + id + k < 2 ^ 64)
    (vaddr_small : vaddr + k * 0x1000 < 2 ^ 64) (next_small : next + k < 2 ^ 64) where
  -- Pages before page `k` only are shared.
  abbrev Before : World → Type 0
  Before v =
      Stopped e sharing law pd id vaddr next rights attr other s k v
      ⊎ Have e sharing law pd id vaddr next rights attr other s k k k v

  page_lacking :
      (w : World)
      → Have e sharing law pd id vaddr next rights attr other s k k k w
      → Behaves (λ _ _. ⊥) Before (share_page pd id vaddr rights attr (next + k) k e w)
  unfolding share_page ◌>>=◌
  page_lacking w have =
      let cap : u64 (page_cap id k) ≡ page_cap id k = omega (arith, cap_small) in
      let at : u64 (page_vaddr vaddr k) ≡ page_vaddr vaddr k = omega (arith, vaddr_small) in
      let vspace : u32 (base_vspace_cap + pd) ≡ base_vspace_cap + pd = omega (arith, pd_small) in
      rw (cap, at, vspace)
        (Behaves-then (λ _. Have e sharing law pd id vaddr next rights attr other s k k k)
          (λ _ _. ⊥) Before
          (set_up_required_paging_structures (page_vaddr vaddr k) (base_vspace_cap + pd) e w) _
          (tables_kept e sharing law pd id vaddr next rights attr other s k k w have Before
            (λ v h. inr h))
          λ _ v h.
            Behaves-then (λ _ _. ⊥) (λ _ _. ⊥) Before
              (map_shared_page (page_cap id k) (base_vspace_cap + pd) (page_vaddr vaddr k) rights
                attr e v)
              _
              (map_refused e sharing law pd id vaddr next rights attr other s k k v h
                (checking _ _ _ _ _ v.trace
                  (h.other_holds e.current_pd_id _ (λ j lt same. absurd (other same)) ∙ lacking))
                (λ _. ⊥) Before (λ u h'. inr h'))
              λ _ u no. absurd no)

  pub pages_lacking :
      (n j : ℕ) (w : World)
      → j ≤ k
      → k < j + n
      → Have e sharing law pd id vaddr next rights attr other s k j j w
      → Behaves (λ _ _. ⊥) Before (share_pages n pd id vaddr rights attr (next + j) j e w)
  unfolding share_pages ◌>>=◌
  pages_lacking zero j w le lt have = absurd (omega (arith, le, lt))
  pages_lacking (suc n) j w le lt have = elim (Bool-cases (j == k)) [
    | inl last ↦
        let is : k ≡ j = ground (arith, last) in
        Behaves-then (λ _ _. ⊥) (λ _ _. ⊥) Before
          (share_page pd id vaddr rights attr (next + j) j e w) _
          (subst
            (λ x.
              Have e sharing law pd id vaddr next rights attr other s k x x w
              → Behaves (λ _ _. ⊥) Before (share_page pd id vaddr rights attr (next + x) x e w))
            is (page_lacking w) have)
          λ _ v no. absurd no
    | inr before ↦
        let less : j < k = ground (arith, le, before) in
        let after : u64 (next + j + 1) ≡ next + (j + 1) = omega (arith, less, next_small) in
        rw after (
          Behaves-then
            (λ _. Have e sharing law pd id vaddr next rights attr other s k (j + 1) (j + 1))
            (λ _ _. ⊥) Before (share_page pd id vaddr rights attr (next + j) j e w) _
            (Behaves-weaken _ (Stopped e sharing law pd id vaddr next rights attr other s k) Before
              (share_page pd id vaddr rights attr (next + j) j e w)
              (page_shared e sharing law pd id vaddr next rights attr other s k j less own_small
                pd_small w (omega (arith, less, cap_small)) (omega (arith, less, vaddr_small)) have)
              (λ v h. inl h))
            λ _ v have'. pages_lacking n (j + 1) v (omega (arith, less)) (omega (arith, lt)) have')
  ]

module _ (e : Env) (sharing : Trace → Sharing) (m : Memory) (pd reader next : ℕ) where
  -- Pages before page `k` only are shared, the last of them perhaps without its capability.
  abbrev pub Refuses : (w : World) (k : ℕ) → World → Type 0
  Refuses w k v =
      ((n : ℕ) × (n < k)
        × (Granted e sharing m pd reader next w n n v
            ⊎ Granted e sharing m pd reader next w (n + 1) n v))
      ⊎ Granted e sharing m pd reader next w k k v

  -- Where the kernel does with page capabilities what it documents, and so refuses to map a page
  -- by an empty slot, the PD is not the current one, identifiers of PDs are below 64, and the
  -- slots and the addresses of the region do not wrap: if the current PD has no capability for a
  -- page of the region, the case for a memory region of sel4cp_internal_set_up_access_rights
  -- ends without success, and has shared only pages before that one.
  pub set_up_memory_region-Refuses :
      (w : World) (k : ℕ)
      → IsSharing e.current_pd_id sharing
      → IsChecking e sharing
      → e.current_pd_id ≢ pd
      → e.current_pd_id < 64
      → pd < 64
      → Fits m reader next
      → k < num_pages m reader
      → (sharing w.trace).holds e.current_pd_id (page_cap (region m reader) k) ≡ none
      → Behaves (λ _ _. ⊥) (Refuses w k) (set_up_memory_region m pd reader next e w)
  unfolding set_up_memory_region ◌>>=◌
  set_up_memory_region-Refuses w k law checking other own_small pd_small
        (cap_small, vaddr_small, next_small) lt lacking =
      let vaddr_less : address m reader + k * 0x1000 < 2 ^ 64 = omega (arith, vaddr_small, lt) in
      Behaves-then (λ _ _. ⊥) (λ _ _. ⊥) (Refuses w k)
        (share_pages (num_pages m reader) pd (region m reader) (address m reader)
          (page_rights m reader) (page_attr m reader) next 0 e w)
        _
        (subst
          (λ x.
            Behaves (λ _ _. ⊥) (Refuses w k)
              (share_pages (num_pages m reader) pd (region m reader) (address m reader)
                (page_rights m reader) (page_attr m reader) x 0 e w))
          (omega arith)
          (pages_lacking e sharing law checking pd (region m reader) (address m reader) next
            (page_rights m reader) (page_attr m reader) other (sharing w.trace) k lacking own_small
            pd_small (omega (arith, cap_small, lt)) vaddr_less (omega (arith, next_small, lt))
            (num_pages m reader) 0 w (omega arith) (omega (arith, lt))
            (Shared-none _ _ _ _ _ _ _ (sharing w.trace))))
        λ _ v no. absurd no
