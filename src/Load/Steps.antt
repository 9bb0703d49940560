-- ===== src/Load/Steps.antt =====
-- The functions of `Load`. What they store is left to the caller, as facts about `load_segments`.
use se_l4cp_poc.Prelude.{ℕ}
use se_l4cp_poc.Machine.State.{Memory, Event, invoked, Call, Env}
use se_l4cp_poc.Machine.Evolves.{Goes, Admits, goes_rules}
use se_l4cp_poc.Caps.Steps.{Goes-pd_restart}
use se_l4cp_poc.Paging.Steps.{paging_rules}
use se_l4cp_poc.Rights.Steps.{Goes-get_symbol, Goes-set_up_access_rights}
use se_l4cp_poc.Load.{
  set_up_ipc_buffer, get_pd_id_vaddr, find_pd_id_vaddr, ensure_page_is_allocated, load_segments,
  pd_load_elf,
}

module _ {Q : Event → Type 0} {e : Env} (plain : Admits Q) where
  pub Goes-ensure_page_is_allocated :
      (write_handle vaddr pd p_flags : ℕ)
      → Goes Q e (ensure_page_is_allocated write_handle vaddr pd p_flags)
  unfolding ensure_page_is_allocated
  Goes-ensure_page_is_allocated write_handle vaddr pd p_flags =
      search (goes_rules, paging_rules, plain) depth 9

  pub Goes-set_up_ipc_buffer : (src pd : ℕ) → Goes Q e (set_up_ipc_buffer src pd)
  unfolding set_up_ipc_buffer
  Goes-set_up_ipc_buffer src pd = search (goes_rules, paging_rules, Goes-get_symbol, plain) depth 9

  pub Goes-find_pd_id_vaddr : (src : ℕ) → Goes Q e (find_pd_id_vaddr src)
  unfolding find_pd_id_vaddr get_pd_id_vaddr
  Goes-find_pd_id_vaddr src = search (goes_rules, Goes-get_symbol, plain) depth 9

  pub Goes-pd_load_elf :
      ((c : Call) (answer : ℕ) → Q (invoked c answer))
      → ((n : ℕ) (m : Memory) (src pd_id_vaddr pd i : ℕ)
          → Goes Q e (load_segments n m src pd_id_vaddr pd i))
      → (src pd : ℕ) → Goes Q e (pd_load_elf src pd)
  unfolding pd_load_elf
  Goes-pd_load_elf starts segments src pd =
      search
        (
          goes_rules, Goes-pd_restart, starts, Goes-find_pd_id_vaddr, Goes-set_up_ipc_buffer,
          Goes-set_up_access_rights, segments, plain,
        )
        depth 12
