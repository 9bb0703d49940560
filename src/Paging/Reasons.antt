-- ===== src/Paging/Reasons.antt =====
-- Why the functions of `Paging` fail.
use se_l4cp_poc.Prelude.{ℕ, ◌≢◌, String, ==_false}
use se_l4cp_poc.Layout.{pages}
use se_l4cp_poc.Machine.State.{Call, Env}
use se_l4cp_poc.Machine.Reasons.{
  Explains, Fails, Fails-then, Fails-failure, Tells-puts, Fails-if, Fails-of, fails_rules,
  explains_rules, Explains-call, Explains-guard, Explains-pure,
}
use se_l4cp_poc.Caps.Reasons.{Explains-delete_temp_cap}
use se_l4cp_poc.Paging.{
  Level, conclude_level, ensure_level, set_up_required_paging_structures, conclude_page,
  map_new_page, allocate_page, ensure_temp_page, require, map_temp_page,
  allocate_page_with_write_handle, refuse,
}

module _ {Bad : Type 0} {e : Env} where
  Fails-refuse : {A : Type 0} (s : String) (err : ℕ) → Fails Bad e (refuse {A = A} s err)
  Fails-refuse s err = search fails_rules depth 9

  Explains-conclude_level : (level : Level) → Explains Bad e (conclude_level level 0)
  unfolding conclude_level
  Explains-conclude_level level = search explains_rules

  Fails-conclude_level :
      (level : Level) (err : ℕ) → err ≢ 0 → Fails Bad e (conclude_level level err)
  unfolding conclude_level
  Fails-conclude_level level err not =
      rw (==_false err 0 not) (Fails-if _ _ _ (Fails-of _ (Explains-pure tt)) (Fails-refuse _ err))

  Explains-ensure_level :
      (level : Level) (vaddr vspace : ℕ) → Explains Bad e (ensure_level level vaddr vspace)
  unfolding ensure_level
  Explains-ensure_level level vaddr vspace =
      Explains-guard _ _ _ (search fails_rules)
        λ i. Explains-call _ _ (Explains-conclude_level level) (Fails-conclude_level level)

  pub Explains-set_up_required_paging_structures :
      (vaddr vspace : ℕ) → Explains Bad e (set_up_required_paging_structures vaddr vspace)
  unfolding set_up_required_paging_structures
  Explains-set_up_required_paging_structures vaddr vspace =
      search (explains_rules, Explains-ensure_level)

  Explains-conclude_page : Explains Bad e (conclude_page 0)
  unfolding conclude_page
  Explains-conclude_page = search explains_rules

  Fails-conclude_page : (err : ℕ) → err ≢ 0 → Fails Bad e (conclude_page err)
  unfolding conclude_page
  Fails-conclude_page err not = rw (==_false err 0 not) (Fails-refuse _ err)

  Explains-map_new_page :
      (vaddr vspace p_flags : ℕ) → Explains Bad e (map_new_page vaddr vspace p_flags)
  unfolding map_new_page
  Explains-map_new_page vaddr vspace p_flags =
      Explains-guard pages _ _ (Fails-then _ _ (Tells-puts _) Fails-failure)
        λ i. Explains-call _ _ Explains-conclude_page Fails-conclude_page

  pub Explains-allocate_page :
      (vaddr vspace p_flags : ℕ) → Explains Bad e (allocate_page vaddr vspace p_flags)
  unfolding allocate_page
  Explains-allocate_page vaddr vspace p_flags =
      search (explains_rules, Explains-set_up_required_paging_structures, Explains-map_new_page)

  Explains-ensure_temp_page : Explains Bad e ensure_temp_page
  unfolding ensure_temp_page
  Explains-ensure_temp_page =
      search (explains_rules, Explains-set_up_required_paging_structures) depth 9

  Explains-require : (c : Call) (message : String) → Explains Bad e (require c message)
  unfolding require
  Explains-require c message =
      Explains-call _ _ (Explains-pure tt) λ err not. rw (==_false err 0 not) (Fails-refuse _ err)

  Explains-map_temp_page : (page_cap : ℕ) → Explains Bad e (map_temp_page page_cap)
  unfolding map_temp_page
  Explains-map_temp_page page_cap =
      search (explains_rules, Explains-require, Explains-delete_temp_cap) depth 9

  pub Explains-allocate_page_with_write_handle :
      (vaddr vspace p_flags : ℕ)
      → Explains Bad e (allocate_page_with_write_handle vaddr vspace p_flags)
  unfolding allocate_page_with_write_handle
  Explains-allocate_page_with_write_handle vaddr vspace p_flags =
      search
        (explains_rules, Explains-allocate_page, Explains-ensure_temp_page, Explains-map_temp_page)
        depth 9

pub ruleset paging_reasons = (
  Explains-set_up_required_paging_structures, Explains-allocate_page,
  Explains-allocate_page_with_write_handle,
)
