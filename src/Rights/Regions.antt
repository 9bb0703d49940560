-- ===== src/Rights/Regions.antt =====
-- Memory regions that PDs share: the frames that the VSpaces of PDs show, and those that the
-- capabilities in their CNodes are for, as the kernel documents the calls of the loop over the
-- pages of a region.
use se_l4cp_poc.Prelude.{
  ℕ, ◌+◌, ◌-◌, ◌*◌, ◌<◌, ◌≡◌, ◌≢◌, refl, ap, ◌∙◌, inl, inr, ◌&&◌, ◌∷◌, Option, arith, ◌==◌, ==_refl,
  ==_false, Bool-cases, if◌then◌else◌, String,
}
use mathlib.Core.Option
use se_l4cp_poc.Layout.{base_cnode_cap, base_vspace_cap, base_shared_memory_region_pages}
use se_l4cp_poc.Machine.State.{
  Call, cnode_copy, arm_page_map, invoked, printed, printed_hex64, Trace,
}
use se_l4cp_poc.Paging.{Level, level_map}

-- By PD: the frame that its VSpace shows at the address of a page, with the rights and the
-- attributes that it was mapped with; and the frame that the capability in a slot of its CNode is
-- for.
pub record Sharing : Type 0 where
  pub shows : (pd vaddr : ℕ) → Option (ℕ × ℕ × ℕ)
  pub holds : (pd slot : ℕ) → Option ℕ

-- An accepted call of PD `own` that maps the page of a capability, and one that copies one.
abbrev pub with_rights : (rights attr : ℕ) → Option ℕ → Option (ℕ × ℕ × ℕ)
with_rights rights attr frame = Option.map (λ f. (f, rights, attr)) frame

abbrev pub mapped : (own service vspace vaddr rights attr : ℕ) → Sharing → Sharing
mapped own service vspace vaddr rights attr s = record s {
  shows = λ pd page.
      if (vspace == base_vspace_cap + pd) && (vaddr == page)
      then with_rights rights attr (s.holds own service)
      else s.shows pd page;
}

abbrev pub copied : (service index src_root src_index : ℕ) → Sharing → Sharing
copied service index src_root src_index s = record s {
  holds = λ pd slot.
      if (service == base_cnode_cap + pd) && (index == slot)
      then s.holds (src_root - base_cnode_cap) src_index
      else s.holds pd slot;
}

-- What is relied on of the kernel, for calls of PD `own`: page tables, refused calls and messages
-- change neither.
pub record IsSharing (own : ℕ) (sharing : Trace → Sharing) : Type 0 where
  pub map_law :
      (service vspace vaddr rights attr : ℕ) (t : Trace)
      → sharing (invoked (arm_page_map service vspace vaddr rights attr) 0 ∷ t)
        ≡ mapped own service vspace vaddr rights attr (sharing t)
  pub copy_law :
      (service index depth src_root src_index src_depth rights : ℕ) (t : Trace)
      → sharing (invoked (cnode_copy service index depth src_root src_index src_depth rights) 0 ∷ t)
        ≡ copied service index src_root src_index (sharing t)
  pub table_law :
      (level : Level) (service vspace vaddr attr answer : ℕ) (t : Trace)
      → sharing (invoked (level_map level service vspace vaddr attr) answer ∷ t) ≡ sharing t
  pub refused_law :
      (c : Call) (answer : ℕ) (t : Trace) → answer ≢ 0 → sharing (invoked c answer ∷ t) ≡ sharing t
  pub puts_law : (s : String) (t : Trace) → sharing (printed s ∷ t) ≡ sharing t
  pub puthex64_law : (n : ℕ) (t : Trace) → sharing (printed_hex64 n ∷ t) ≡ sharing t

-- The slot of the capability to page `j` of the region `id`, and its address in a VSpace that has
-- the region at `vaddr`.
abbrev pub page_cap : (id j : ℕ) → ℕ
page_cap id j = base_shared_memory_region_pages + id + j

abbrev pub page_vaddr : (vaddr j : ℕ) → ℕ
page_vaddr vaddr j = vaddr + j * 0x1000

-- The region `id` of PD `own`, at `vaddr` in the VSpace of `pd`, with its capabilities from slot
-- `next` on in the CNode of `pd`, mapped with `rights` and `attr`.
module _ (own pd id vaddr next rights attr : ℕ) where
  -- From `s` to `s'`, `n` pages have been mapped and `m` of their capabilities copied, and nothing
  -- else has changed.
  pub record Shared (s : Sharing) (n m : ℕ) (s' : Sharing) : Type 0 where
    pub shown :
        (j : ℕ)
        → j < n
        → s'.shows pd (page_vaddr vaddr j) ≡ with_rights rights attr (s.holds own (page_cap id j))
    pub held : (j : ℕ) → j < m → s'.holds pd (next + j) ≡ s.holds own (page_cap id j)
    pub other_shows :
        (p v : ℕ) → ((j : ℕ) → j < n → p ≡ pd → v ≢ page_vaddr vaddr j) → s'.shows p v ≡ s.shows p v
    pub other_holds :
        (p slot : ℕ)
        → ((j : ℕ) → j < m → p ≡ pd → slot ≢ next + j)
        → s'.holds p slot ≡ s.holds p slot

  pub Shared-none : (s : Sharing) → Shared s 0 0 s
  Shared-none s = record {
    shown = λ j lt. absurd (omega (arith, lt));
    held = λ j lt. absurd (omega (arith, lt));
    other_shows = λ p v h. refl;
    other_holds = λ p slot h. refl;
  }

  module _ (other : own ≢ pd) (s s' : Sharing) (j : ℕ) where
    page_held :
        (n : ℕ) → Shared s n j s' → s'.holds own (page_cap id j) ≡ s.holds own (page_cap id j)
    page_held n h = h.other_holds own _ (λ k lt same. absurd (other same))

    pub Shared-mapped :
        Shared s j j s'
        → Shared s
            (j + 1)
            j
            (mapped own (page_cap id j) (base_vspace_cap + pd) (page_vaddr vaddr j) rights attr s')
    Shared-mapped h = record {
      shown = λ k lt.
          rw (==_refl (base_vspace_cap + pd))
            (elim (Bool-cases (page_vaddr vaddr j == page_vaddr vaddr k)) [
              | inl same ↦
                  let is : j ≡ k = ground (arith, same) in
                  rw same (
                    ap (with_rights rights attr)
                      (page_held j h ∙ ap (λ x. s.holds own (page_cap id x)) is))
              | inr differ ↦ rw differ (h.shown k (ground (arith, lt, differ)))
            ]);
      held = h.held;
      other_shows = λ p v beside. elim (Bool-cases (base_vspace_cap + pd == base_vspace_cap + p)) [
        | inl here ↦
            let is : p ≡ pd = ground (arith, here) in
            rw
              (
                here,
                ==_false (page_vaddr vaddr j) v (λ q. beside j (omega arith) is (omega (arith, q))),
              )
              (h.other_shows p v (λ k lt. beside k (omega (arith, lt))))
        | inr away ↦ rw away (h.other_shows p v (λ k lt. beside k (omega (arith, lt))))
      ];
      other_holds = h.other_holds;
    }

    pub Shared-copied :
        Shared s (j + 1) j s'
        → Shared s
            (j + 1)
            (j + 1)
            (copied (base_cnode_cap + pd) (next + j) (base_cnode_cap + own) (page_cap id j) s')
    Shared-copied h =
        let back : base_cnode_cap + own - base_cnode_cap ≡ own = omega arith in
        record {
          shown = h.shown;
          held = λ k lt.
              rw (==_refl (base_cnode_cap + pd), back)
                (elim (Bool-cases (next + j == next + k)) [
                  | inl same ↦
                      let is : j ≡ k = ground (arith, same) in
                      rw same (page_held (j + 1) h ∙ ap (λ x. s.holds own (page_cap id x)) is)
                  | inr differ ↦ rw differ (h.held k (ground (arith, lt, differ)))
                ]);
          other_shows = h.other_shows;
          other_holds = λ p slot beside.
              elim (Bool-cases (base_cnode_cap + pd == base_cnode_cap + p)) [
                | inl here ↦
                    let is : p ≡ pd = ground (arith, here) in
                    rw
                      (
                        here,
                        ==_false (next + j) slot
                            (λ q. beside j (omega arith) is (omega (arith, q))),
                      )
                      (h.other_holds p slot (λ k lt. beside k (omega (arith, lt))))
                | inr away ↦ rw away (h.other_holds p slot (λ k lt. beside k (omega (arith, lt))))
              ];
        }
