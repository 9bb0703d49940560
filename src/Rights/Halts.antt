-- ===== src/Rights/Halts.antt =====
-- Fuel in the functions of `Rights` and in the lookup of a symbol.
use se_l4cp_poc.Prelude.{ℕ, zero, suc, List, Option, none, some, Bool, true, false}
use se_l4cp_poc.Machine.State.{Memory, Env}
use se_l4cp_poc.Machine.Halts.{Halts, halts_rules, Halts-ask, Halts-pure, Halts-bind, Halts-failure}
use se_l4cp_poc.Elf.Symbols.{NoNul, IsFirstNamed, search_table-IsFirstNamed}
use se_l4cp_poc.Machine.Run.{Prog}
use se_l4cp_poc.Elf.{
  Search, found, missing, unfinished, search_result, search_symbol_table, get_symbol,
}
use se_l4cp_poc.Caps.Halts.{caps_halts}
use se_l4cp_poc.Paging.Halts.{paging_halts}
use se_l4cp_poc.Rights.{
  map_shared_page, share_page, share_pages, set_up_scheduling, set_up_channel_right,
  set_up_memory_region, set_up_irq_right, set_up_access_right, set_up_access_rights_from,
  set_up_access_rights, has_control_case, has_control_from,
  has_protection_domain_control_access_right,
}

module _ {e : Env} where
  Halts-search_result :
      (m : Memory) (target : List ℕ) (strings entry end : ℕ) (s : Search)
      → IsFirstNamed m target strings entry end s
      → Halts e (search_result s)
  Halts-search_result m target strings entry end (found a) h = Halts-pure a
  Halts-search_result m target strings entry end missing h = Halts-failure
  Halts-search_result m target strings entry end unfinished h = absurd h

  Halts-search_symbol_table :
      (m : Memory) (src : ℕ) (target : List ℕ) (o : Option ℕ)
      → NoNul target
      → Halts e (search_symbol_table m src target o)
  Halts-search_symbol_table m src target none ok = search halts_rules
  Halts-search_symbol_table m src target (some table) ok =
      Halts-search_result m target _ _ _ _ (search_table-IsFirstNamed m src target table ok)

  pub Halts-get_symbol :
      (src : ℕ) (target : List ℕ) → NoNul target → Halts e (get_symbol src target)
  unfolding get_symbol
  Halts-get_symbol src target ok =
      Halts-bind _ _ (Halts-ask _) (λ m. Halts-search_symbol_table m src target _ ok)

  Halts-map_shared_page :
      (cap vspace vaddr rights attr : ℕ) → Halts e (map_shared_page cap vspace vaddr rights attr)
  unfolding map_shared_page
  Halts-map_shared_page cap vspace vaddr rights attr = search (halts_rules) depth 9

  Halts-share_page :
      (pd id vaddr rights attr next j : ℕ) → Halts e (share_page pd id vaddr rights attr next j)
  unfolding share_page
  Halts-share_page pd id vaddr rights attr next j =
      search (halts_rules, paging_halts, Halts-map_shared_page) depth 9

  Halts-share_pages :
      (n pd id vaddr rights attr next j : ℕ)
      → Halts e (share_pages n pd id vaddr rights attr next j)
  unfolding share_pages
  Halts-share_pages zero pd id vaddr rights attr next j = Halts-pure next
  Halts-share_pages (suc n) pd id vaddr rights attr next j =
      Halts-bind _ _ (Halts-share_page pd id vaddr rights attr next j)
        (λ _. Halts-share_pages n pd id vaddr rights attr _ _)

  module _ (m : Memory) (pd reader next : ℕ) where
    Halts-set_up_scheduling : Halts e (set_up_scheduling m pd reader next)
    unfolding set_up_scheduling
    Halts-set_up_scheduling = search (halts_rules, caps_halts)

    Halts-set_up_channel_right : Halts e (set_up_channel_right m pd reader next)
    unfolding set_up_channel_right
    Halts-set_up_channel_right = search (halts_rules, caps_halts)

    Halts-set_up_memory_region : Halts e (set_up_memory_region m pd reader next)
    unfolding set_up_memory_region
    Halts-set_up_memory_region = search (halts_rules, Halts-share_pages)

    Halts-set_up_irq_right : Halts e (set_up_irq_right m pd reader next)
    unfolding set_up_irq_right
    Halts-set_up_irq_right = search (halts_rules, caps_halts)

  pub Halts-set_up_access_right :
      (m : Memory) (pd reader next : ℕ) → Halts e (set_up_access_right m pd reader next)
  unfolding set_up_access_right
  Halts-set_up_access_right m pd reader next =
      search
        (
          halts_rules, Halts-set_up_scheduling, Halts-set_up_channel_right,
          Halts-set_up_memory_region, Halts-set_up_irq_right,
        )
        depth 12

  Halts-set_up_access_rights_from :
      (n : ℕ) (m : Memory) (pd reader next : ℕ)
      → Halts e (set_up_access_rights_from n m pd reader next)
  unfolding set_up_access_rights_from
  Halts-set_up_access_rights_from zero m pd reader next = Halts-pure tt
  Halts-set_up_access_rights_from (suc n) m pd reader next =
      Halts-bind _ _ (Halts-set_up_access_right m pd reader next)
        (λ _. Halts-set_up_access_rights_from n m pd _ _)

  pub Halts-set_up_access_rights : (elf pd : ℕ) → Halts e (set_up_access_rights elf pd)
  unfolding set_up_access_rights
  Halts-set_up_access_rights elf pd = search (halts_rules, Halts-set_up_access_rights_from)

  Halts-has_control_case :
      (b : Bool) (o : Option ℕ) (id : ℕ) (k : ℕ → Prog Bool)
      → ((n : ℕ) → Halts e (k n))
      → Halts e (has_control_case b o id k)
  unfolding has_control_case
  Halts-has_control_case true o id k g = Halts-pure true
  Halts-has_control_case false (some n) id k g = g n
  Halts-has_control_case false none id k g = search (halts_rules) depth 9

  Halts-has_control_from : (n : ℕ) (m : Memory) (reader : ℕ) → Halts e (has_control_from n m reader)
  unfolding has_control_from
  Halts-has_control_from zero m reader = Halts-pure false
  Halts-has_control_from (suc n) m reader =
      Halts-has_control_case _ _ _ _ (λ k. Halts-has_control_from n m _)

  pub Halts-has_protection_domain_control_access_right :
      (elf : ℕ) → Halts e (has_protection_domain_control_access_right elf)
  unfolding has_protection_domain_control_access_right
  Halts-has_protection_domain_control_access_right elf =
      search (halts_rules, Halts-has_control_from)
