-- ===== src/Rights/Steps.antt =====
-- The functions of `Elf` and `Rights` add plain events, and take tables through `Paging`.
use se_l4cp_poc.Prelude.{ℕ, zero, suc, List, Option, none, some, Bool, true, false}
use se_l4cp_poc.Machine.State.{Memory, Event, Env}
use se_l4cp_poc.Machine.Evolves.{
  Goes, Admits, goes_rules, Goes-pure, Goes-failure, Goes-exhausted, Goes-bind,
}
use se_l4cp_poc.Machine.Run.{Prog}
use se_l4cp_poc.Elf.{
  Search, found, missing, unfinished, search_result, search_symbol_table, get_symbol,
}
use se_l4cp_poc.Caps.Steps.{caps_rules}
use se_l4cp_poc.Paging.Steps.{paging_rules}
use se_l4cp_poc.Rights.{
  map_shared_page, share_page, share_pages, set_up_scheduling, set_up_channel_right,
  set_up_memory_region, set_up_irq_right, set_up_access_right, set_up_access_rights_from,
  set_up_access_rights, has_control_case, has_control_from,
  has_protection_domain_control_access_right,
}

module _ {Q : Event → Type 0} {e : Env} (plain : Admits Q) where
  Goes-search_result : (s : Search) → Goes Q e (search_result s)
  Goes-search_result (found entry) = Goes-pure entry
  Goes-search_result missing = Goes-failure
  Goes-search_result unfinished = Goes-exhausted

  Goes-search_symbol_table :
      (m : Memory) (src : ℕ) (target : List ℕ) (o : Option ℕ)
      → Goes Q e (search_symbol_table m src target o)
  Goes-search_symbol_table m src target none = search (goes_rules, plain)
  Goes-search_symbol_table m src target (some table) = Goes-search_result _

  pub Goes-get_symbol : (src : ℕ) (target : List ℕ) → Goes Q e (get_symbol src target)
  unfolding get_symbol
  Goes-get_symbol src target = search (goes_rules, Goes-search_symbol_table)

  Goes-map_shared_page :
      (cap vspace vaddr rights attr : ℕ) → Goes Q e (map_shared_page cap vspace vaddr rights attr)
  unfolding map_shared_page
  Goes-map_shared_page cap vspace vaddr rights attr = search (goes_rules, plain) depth 9

  Goes-share_page :
      (pd id vaddr rights attr next j : ℕ) → Goes Q e (share_page pd id vaddr rights attr next j)
  unfolding share_page
  Goes-share_page pd id vaddr rights attr next j =
      search (goes_rules, paging_rules, Goes-map_shared_page, plain) depth 9

  Goes-share_pages :
      (n pd id vaddr rights attr next j : ℕ)
      → Goes Q e (share_pages n pd id vaddr rights attr next j)
  unfolding share_pages
  Goes-share_pages zero pd id vaddr rights attr next j = Goes-pure next
  Goes-share_pages (suc n) pd id vaddr rights attr next j =
      Goes-bind _ _ (Goes-share_page pd id vaddr rights attr next j)
        (λ _. Goes-share_pages n pd id vaddr rights attr _ _)

  module _ (m : Memory) (pd reader next : ℕ) where
    Goes-set_up_scheduling : Goes Q e (set_up_scheduling m pd reader next)
    unfolding set_up_scheduling
    Goes-set_up_scheduling = search (goes_rules, caps_rules, plain)

    Goes-set_up_channel_right : Goes Q e (set_up_channel_right m pd reader next)
    unfolding set_up_channel_right
    Goes-set_up_channel_right = search (goes_rules, caps_rules, plain)

    Goes-set_up_memory_region : Goes Q e (set_up_memory_region m pd reader next)
    unfolding set_up_memory_region
    Goes-set_up_memory_region = search (goes_rules, Goes-share_pages)

    Goes-set_up_irq_right : Goes Q e (set_up_irq_right m pd reader next)
    unfolding set_up_irq_right
    Goes-set_up_irq_right = search (goes_rules, caps_rules, plain)

  pub Goes-set_up_access_right :
      (m : Memory) (pd reader next : ℕ) → Goes Q e (set_up_access_right m pd reader next)
  unfolding set_up_access_right
  Goes-set_up_access_right m pd reader next =
      search
        (
          goes_rules, Goes-set_up_scheduling, Goes-set_up_channel_right, Goes-set_up_memory_region,
          Goes-set_up_irq_right, plain,
        )
        depth 12

  Goes-set_up_access_rights_from :
      (n : ℕ) (m : Memory) (pd reader next : ℕ)
      → Goes Q e (set_up_access_rights_from n m pd reader next)
  unfolding set_up_access_rights_from
  Goes-set_up_access_rights_from zero m pd reader next = Goes-pure tt
  Goes-set_up_access_rights_from (suc n) m pd reader next =
      Goes-bind _ _ (Goes-set_up_access_right m pd reader next)
        (λ _. Goes-set_up_access_rights_from n m pd _ _)

  pub Goes-set_up_access_rights : (elf pd : ℕ) → Goes Q e (set_up_access_rights elf pd)
  unfolding set_up_access_rights
  Goes-set_up_access_rights elf pd = search (goes_rules, Goes-set_up_access_rights_from)

  Goes-has_control_case :
      (b : Bool) (o : Option ℕ) (id : ℕ) (k : ℕ → Prog Bool)
      → ((n : ℕ) → Goes Q e (k n))
      → Goes Q e (has_control_case b o id k)
  unfolding has_control_case
  Goes-has_control_case true o id k g = Goes-pure true
  Goes-has_control_case false (some n) id k g = g n
  Goes-has_control_case false none id k g = search (goes_rules, plain) depth 9

  Goes-has_control_from : (n : ℕ) (m : Memory) (reader : ℕ) → Goes Q e (has_control_from n m reader)
  unfolding has_control_from
  Goes-has_control_from zero m reader = Goes-pure false
  Goes-has_control_from (suc n) m reader =
      Goes-has_control_case _ _ _ _ (λ k. Goes-has_control_from n m _)

  pub Goes-has_protection_domain_control_access_right :
      (elf : ℕ) → Goes Q e (has_protection_domain_control_access_right elf)
  unfolding has_protection_domain_control_access_right
  Goes-has_protection_domain_control_access_right elf = search (goes_rules, Goes-has_control_from)
