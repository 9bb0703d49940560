-- ===== src/Paging/Halts.antt =====
-- Fuel in the functions of `Paging`.
use se_l4cp_poc.Prelude.{ℕ, String}
use se_l4cp_poc.Machine.State.{Call, Env}
use se_l4cp_poc.Machine.Halts.{Halts, halts_rules}
use se_l4cp_poc.Caps.Halts.{Halts-delete_temp_cap}
use se_l4cp_poc.Paging.{
  Level, conclude_level, ensure_level, set_up_required_paging_structures, conclude_page,
  map_new_page, allocate_page, ensure_temp_page, require, map_temp_page,
  allocate_page_with_write_handle, refuse,
}

module _ {e : Env} where
  pub Halts-refuse : {A : Type 0} (s : String) (err : ℕ) → Halts e (refuse {A = A} s err)
  Halts-refuse s err = search (halts_rules) depth 9

  conclude_level-Halts : (level : Level) (err : ℕ) → Halts e (conclude_level level err)
  unfolding conclude_level
  conclude_level-Halts level err = search (halts_rules, Halts-refuse)

  Halts-ensure_level :
      (level : Level) (vaddr vspace : ℕ) → Halts e (ensure_level level vaddr vspace)
  unfolding ensure_level
  Halts-ensure_level level vaddr vspace = search (halts_rules, conclude_level-Halts) depth 9

  pub Halts-set_up_required_paging_structures :
      (vaddr vspace : ℕ) → Halts e (set_up_required_paging_structures vaddr vspace)
  unfolding set_up_required_paging_structures
  Halts-set_up_required_paging_structures vaddr vspace = search (halts_rules, Halts-ensure_level)

  conclude_page-Halts : (err : ℕ) → Halts e (conclude_page err)
  unfolding conclude_page
  conclude_page-Halts err = search (halts_rules, Halts-refuse)

  Halts-map_new_page : (vaddr vspace p_flags : ℕ) → Halts e (map_new_page vaddr vspace p_flags)
  unfolding map_new_page
  Halts-map_new_page vaddr vspace p_flags = search (halts_rules, conclude_page-Halts) depth 9

  pub Halts-allocate_page :
      (vaddr vspace p_flags : ℕ) → Halts e (allocate_page vaddr vspace p_flags)
  unfolding allocate_page
  Halts-allocate_page vaddr vspace p_flags =
      search (halts_rules, Halts-set_up_required_paging_structures, Halts-map_new_page)

  Halts-ensure_temp_page : Halts e ensure_temp_page
  unfolding ensure_temp_page
  Halts-ensure_temp_page = search (halts_rules, Halts-set_up_required_paging_structures) depth 9

  Halts-require : (c : Call) (message : String) → Halts e (require c message)
  unfolding require
  Halts-require c message = search (halts_rules, Halts-refuse)

  Halts-map_temp_page : (page_cap : ℕ) → Halts e (map_temp_page page_cap)
  unfolding map_temp_page
  Halts-map_temp_page page_cap = search (halts_rules, Halts-require, Halts-delete_temp_cap) depth 9

  pub Halts-allocate_page_with_write_handle :
      (vaddr vspace p_flags : ℕ) → Halts e (allocate_page_with_write_handle vaddr vspace p_flags)
  unfolding allocate_page_with_write_handle
  Halts-allocate_page_with_write_handle vaddr vspace p_flags =
      search (halts_rules, Halts-allocate_page, Halts-ensure_temp_page, Halts-map_temp_page) depth 9

pub ruleset paging_halts = (
  Halts-set_up_required_paging_structures, Halts-allocate_page,
  Halts-allocate_page_with_write_handle,
)
