-- ===== src/Rights/Reasons.antt =====
-- Why the functions of `Rights` and the lookup of a symbol fail.
use se_l4cp_poc.Prelude.{
  ℕ, zero, suc, ◌+◌, ◌≡◌, refl, subst, arith, Option, none, some, Bool, true, false, ==_false,
}
use se_l4cp_poc.Machine.State.{Memory, Env}
use se_l4cp_poc.Machine.Run.{Prog, pure, ◌>>=◌}
use se_l4cp_poc.Machine.Yields.{Yields, Yields-pure}
use se_l4cp_poc.Machine.Reasons.{
  Explains, fails_rules, explains_rules, Explains-bad, Explains-call, Explains-pure, Explains-bind,
  Explains-bind_known, Explains-ask_bind,
}
use se_l4cp_poc.Rights.Invalid.{
  right_size, HasInvalidRight, HasInvalidTable, invalid_right, scheduling, channel, memory_region,
  irq, control, invalid, right_type, set_up_scheduling-moves, set_up_channel_right-moves,
  set_up_memory_region-moves, set_up_irq_right-moves,
}
use se_l4cp_poc.Elf.{load8}
use se_l4cp_poc.Caps.Reasons.{caps_reasons}
use se_l4cp_poc.Paging.Reasons.{paging_reasons}
use se_l4cp_poc.Rights.{
  map_shared_page, share_page, share_pages, set_up_scheduling, set_up_channel_right,
  set_up_memory_region, set_up_irq_right, set_up_access_right, set_up_access_rights_from,
  set_up_access_rights, has_control_case, has_control_from,
  has_protection_domain_control_access_right,
}

module _ {Bad : Type 0} {e : Env} where
  Explains-map_shared_page :
      (cap vspace vaddr rights attr : ℕ)
      → Explains Bad e (map_shared_page cap vspace vaddr rights attr)
  unfolding map_shared_page
  Explains-map_shared_page cap vspace vaddr rights attr =
      Explains-call _ _ (Explains-pure tt)
        λ err not. rw (==_false err 0 not) (search fails_rules depth 9)

  Explains-share_page :
      (pd id vaddr rights attr next j : ℕ)
      → Explains Bad e (share_page pd id vaddr rights attr next j)
  unfolding share_page
  Explains-share_page pd id vaddr rights attr next j =
      search (explains_rules, paging_reasons, Explains-map_shared_page) depth 9

  Explains-share_pages :
      (n pd id vaddr rights attr next j : ℕ)
      → Explains Bad e (share_pages n pd id vaddr rights attr next j)
  unfolding share_pages
  Explains-share_pages zero pd id vaddr rights attr next j = Explains-pure next
  Explains-share_pages (suc n) pd id vaddr rights attr next j =
      Explains-bind _ _ (Explains-share_page pd id vaddr rights attr next j)
        (λ _. Explains-share_pages n pd id vaddr rights attr _ _)

  module _ (m : Memory) (pd reader next : ℕ) where
    Explains-set_up_scheduling : Explains Bad e (set_up_scheduling m pd reader next)
    unfolding set_up_scheduling
    Explains-set_up_scheduling = search (explains_rules, caps_reasons)

    Explains-set_up_channel_right : Explains Bad e (set_up_channel_right m pd reader next)
    unfolding set_up_channel_right
    Explains-set_up_channel_right = search (explains_rules, caps_reasons)

    Explains-set_up_memory_region : Explains Bad e (set_up_memory_region m pd reader next)
    unfolding set_up_memory_region
    Explains-set_up_memory_region = search (explains_rules, Explains-share_pages)

    Explains-set_up_irq_right : Explains Bad e (set_up_irq_right m pd reader next)
    unfolding set_up_irq_right
    Explains-set_up_irq_right = search (explains_rules, caps_reasons)

  -- A round of the loop that grants an access right of `k` bytes behind its type, and the rest.
  Explains-granted :
      (n : ℕ) (m : Memory) (pd reader k : ℕ) (granted : Prog (ℕ × ℕ))
      → right_size (load8 m reader) ≡ some k
      → Explains Bad e granted
      → Yields e granted (λ r. r.0 ≡ reader + 1 + k)
      → (HasInvalidRight (suc n) m reader → Bad)
      → ((reader' next' : ℕ)
          → (HasInvalidRight n m reader' → Bad)
          → Explains Bad e (set_up_access_rights_from n m pd reader' next'))
      → Explains Bad e (granted >>= λ r. set_up_access_rights_from n m pd r.0 r.1)
  unfolding HasInvalidRight
  Explains-granted n m pd reader k granted size eg moves bad later =
      Explains-bind_known (λ r. r.0 ≡ reader + 1 + k) _ _ eg moves
        λ r is. later r.0 r.1 (λ h. bad (rw size (subst (HasInvalidRight n m) is h)))

  Explains-set_up_access_rights_from :
      (n : ℕ) (m : Memory) (pd reader next : ℕ)
      → (HasInvalidRight n m reader → Bad)
      → Explains Bad e (set_up_access_rights_from n m pd reader next)
  unfolding set_up_access_rights_from set_up_access_right HasInvalidRight
  Explains-set_up_access_rights_from zero m pd reader next bad = Explains-pure tt
  Explains-set_up_access_rights_from (suc n) m pd reader next bad =
      elim (right_type (load8 m reader)) [
        | scheduling is ↦
            rw (is, set_up_access_right)
              (Explains-granted n m pd reader _ (set_up_scheduling m pd (reader + 1) next)
                (rw is refl) (Explains-set_up_scheduling m pd (reader + 1) next)
                (set_up_scheduling-moves m pd (reader + 1) next) bad
                (Explains-set_up_access_rights_from n m pd))
        | channel is ↦
            rw (is, set_up_access_right)
              (Explains-granted n m pd reader _ (set_up_channel_right m pd (reader + 1) next)
                (rw is refl) (Explains-set_up_channel_right m pd (reader + 1) next)
                (set_up_channel_right-moves m pd (reader + 1) next) bad
                (Explains-set_up_access_rights_from n m pd))
        | memory_region is ↦
            rw (is, set_up_access_right)
              (Explains-granted n m pd reader _ (set_up_memory_region m pd (reader + 1) next)
                (rw is refl) (Explains-set_up_memory_region m pd (reader + 1) next)
                (set_up_memory_region-moves m pd (reader + 1) next) bad
                (Explains-set_up_access_rights_from n m pd))
        | irq is ↦
            rw (is, set_up_access_right)
              (Explains-granted n m pd reader _ (set_up_irq_right m pd (reader + 1) next)
                (rw is refl) (Explains-set_up_irq_right m pd (reader + 1) next)
                (set_up_irq_right-moves m pd (reader + 1) next) bad
                (Explains-set_up_access_rights_from n m pd))
        | control is ↦
            rw (is, set_up_access_right)
              (Explains-granted n m pd reader 0 (pure (reader + 1, next)) (rw is refl)
                (Explains-pure _) (Yields-pure _ _ (omega arith)) bad
                (Explains-set_up_access_rights_from n m pd))
        | invalid n0 n1 n2 n3 n4 ↦
            let wrong : Bad = bad (invalid_right n m reader n0 n1 n2 n3 n4) in
            Explains-bind _ _
              (rw
                (
                  ==_false (load8 m reader) 0 n0,
                  ==_false (load8 m reader) 1 n1,
                  ==_false (load8 m reader) 2 n2,
                  ==_false (load8 m reader) 3 n3,
                  ==_false (load8 m reader) 4 n4,
                )
                (Explains-bad _ (search fails_rules depth 9) wrong))
              (λ r. Explains-set_up_access_rights_from n m pd r.0 r.1 (λ _. wrong))
      ]

  pub Explains-set_up_access_rights :
      (elf pd : ℕ)
      → (HasInvalidTable e.memory elf → Bad)
      → Explains Bad e (set_up_access_rights elf pd)
  unfolding set_up_access_rights
  Explains-set_up_access_rights elf pd bad =
      Explains-ask_bind _ _ (Explains-set_up_access_rights_from _ e.memory pd _ _ bad)

  Explains-has_control_case :
      (b : Bool) (o : Option ℕ) (id : ℕ) (k : ℕ → Prog Bool)
      → ((n : ℕ) → Explains Bad e (k n))
      → Explains Bad e (has_control_case b o id k)
  unfolding has_control_case
  Explains-has_control_case true o id k g = Explains-pure true
  Explains-has_control_case false (some n) id k g = g n
  Explains-has_control_case false none id k g = search (explains_rules) depth 9

  Explains-has_control_from :
      (n : ℕ) (m : Memory) (reader : ℕ) → Explains Bad e (has_control_from n m reader)
  unfolding has_control_from
  Explains-has_control_from zero m reader = Explains-pure false
  Explains-has_control_from (suc n) m reader =
      Explains-has_control_case _ _ _ _ (λ k. Explains-has_control_from n m _)

  pub Explains-has_protection_domain_control_access_right :
      (elf : ℕ) → Explains Bad e (has_protection_domain_control_access_right elf)
  unfolding has_protection_domain_control_access_right
  Explains-has_protection_domain_control_access_right elf =
      search (explains_rules, Explains-has_control_from)
