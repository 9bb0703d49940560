-- ===== src/Paging/Steps.antt =====
-- The functions of `Paging` add plain events, and take tables and pages from pools that have some
-- left.
use se_l4cp_poc.Prelude.{ℕ, String}
use se_l4cp_poc.Layout.{pages}
use se_l4cp_poc.Machine.State.{Event, Call, Env}
use se_l4cp_poc.Machine.Evolves.{Goes, IsQuiet, Admits, goes_rules}
use se_l4cp_poc.Machine.Room.{GoesWithRoom, room_rules}
use se_l4cp_poc.Caps.Steps.{Goes-delete_temp_cap}
use se_l4cp_poc.Paging.{
  Level, upper_directory, directory, table, level_pool, level_map, conclude_level, ensure_level,
  set_up_required_paging_structures, conclude_page, map_new_page, allocate_page, ensure_temp_page,
  require, map_temp_page, allocate_page_with_write_handle, refuse,
}

level_map-IsQuiet :
    (level : Level) (service vspace vaddr attr : ℕ)
    → IsQuiet (level_map level service vspace vaddr attr)
level_map-IsQuiet upper_directory service vspace vaddr attr = tt
level_map-IsQuiet directory service vspace vaddr attr = tt
level_map-IsQuiet table service vspace vaddr attr = tt

module _ {Q : Event → Type 0} {e : Env} (plain : Admits Q) where
  pub Goes-refuse : {A : Type 0} (s : String) (err : ℕ) → Goes Q e (refuse {A = A} s err)
  Goes-refuse s err = search (goes_rules, plain) depth 9

  conclude_level-room :
      (level : Level) (err : ℕ) → GoesWithRoom Q e (level_pool level) (conclude_level level err)
  unfolding conclude_level
  conclude_level-room level err = search (goes_rules, room_rules, Goes-refuse)

  Goes-ensure_level :
      (level : Level) (vaddr vspace : ℕ) → Goes Q e (ensure_level level vaddr vspace)
  unfolding ensure_level
  Goes-ensure_level level vaddr vspace =
      search (goes_rules, room_rules, conclude_level-room, level_map-IsQuiet, plain) depth 9

  pub Goes-set_up_required_paging_structures :
      (vaddr vspace : ℕ) → Goes Q e (set_up_required_paging_structures vaddr vspace)
  unfolding set_up_required_paging_structures
  Goes-set_up_required_paging_structures vaddr vspace = search (goes_rules, Goes-ensure_level)

  conclude_page-room : (err : ℕ) → GoesWithRoom Q e pages (conclude_page err)
  unfolding conclude_page
  conclude_page-room err = search (goes_rules, room_rules, Goes-refuse)

  Goes-map_new_page : (vaddr vspace p_flags : ℕ) → Goes Q e (map_new_page vaddr vspace p_flags)
  unfolding map_new_page
  Goes-map_new_page vaddr vspace p_flags =
      search (goes_rules, room_rules, conclude_page-room, plain) depth 9

  pub Goes-allocate_page :
      (vaddr vspace p_flags : ℕ) → Goes Q e (allocate_page vaddr vspace p_flags)
  unfolding allocate_page
  Goes-allocate_page vaddr vspace p_flags =
      search (goes_rules, Goes-set_up_required_paging_structures, Goes-map_new_page)

  Goes-ensure_temp_page : Goes Q e ensure_temp_page
  unfolding ensure_temp_page
  Goes-ensure_temp_page = search (goes_rules, Goes-set_up_required_paging_structures, plain) depth 9

  Goes-require : (c : Call) (message : String) → IsQuiet c → Goes Q e (require c message)
  unfolding require
  Goes-require c message is_quiet = search (goes_rules, Goes-refuse, plain)

  Goes-map_temp_page : (page_cap : ℕ) → Goes Q e (map_temp_page page_cap)
  unfolding map_temp_page
  Goes-map_temp_page page_cap =
      search (goes_rules, Goes-require, Goes-delete_temp_cap, plain) depth 9

  pub Goes-allocate_page_with_write_handle :
      (vaddr vspace p_flags : ℕ) → Goes Q e (allocate_page_with_write_handle vaddr vspace p_flags)
  unfolding allocate_page_with_write_handle
  Goes-allocate_page_with_write_handle vaddr vspace p_flags =
      search (goes_rules, Goes-allocate_page, Goes-ensure_temp_page, Goes-map_temp_page) depth 9

pub ruleset paging_rules = (
  Goes-set_up_required_paging_structures, Goes-allocate_page, Goes-allocate_page_with_write_handle,
)
