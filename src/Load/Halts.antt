-- ===== src/Load/Halts.antt =====
-- Fuel in the functions of `Load` but for the loops over a segment.
use se_l4cp_poc.Prelude.{ℕ, ◌≡◌, refl}
use se_l4cp_poc.Machine.Run.{ask}
use se_l4cp_poc.Machine.Yields.{Yields}
use se_l4cp_poc.Elf.{elf_header, get_symbol, bytes_of}
use se_l4cp_poc.Elf.Symbols.{NoNul-of}
use se_l4cp_poc.Machine.State.{Env}
use se_l4cp_poc.Machine.Halts.{Halts, halts_rules, Halts-ask, Halts-bind, Halts-bind_known}
use se_l4cp_poc.Caps.Halts.{caps_halts}
use se_l4cp_poc.Paging.Halts.{paging_halts}
use se_l4cp_poc.Rights.Halts.{Halts-get_symbol, Halts-set_up_access_rights}
use se_l4cp_poc.Load.{
  set_up_ipc_buffer, get_pd_id_vaddr, find_pd_id_vaddr, ensure_page_is_allocated, load_segments,
  pd_load_elf,
}

module _ {e : Env} where
  pub Halts-ensure_page_is_allocated :
      (write_handle vaddr pd p_flags : ℕ)
      → Halts e (ensure_page_is_allocated write_handle vaddr pd p_flags)
  unfolding ensure_page_is_allocated
  Halts-ensure_page_is_allocated write_handle vaddr pd p_flags =
      search (halts_rules, paging_halts) depth 9

  name_found : (src : ℕ) → Halts e (get_symbol src (bytes_of "__sel4_ipc_buffer_obj"))
  name_found src = Halts-get_symbol src _ (NoNul-of (bytes_of "__sel4_ipc_buffer_obj") refl)

  id_found : (src : ℕ) → Halts e (get_symbol src (bytes_of "sel4cp_current_pd_id"))
  id_found src = Halts-get_symbol src _ (NoNul-of (bytes_of "sel4cp_current_pd_id") refl)

  Halts-set_up_ipc_buffer : (src pd : ℕ) → Halts e (set_up_ipc_buffer src pd)
  unfolding set_up_ipc_buffer
  Halts-set_up_ipc_buffer src pd = search (halts_rules, paging_halts, name_found) depth 9

  Halts-find_pd_id_vaddr : (src : ℕ) → Halts e (find_pd_id_vaddr src)
  unfolding find_pd_id_vaddr get_pd_id_vaddr
  Halts-find_pd_id_vaddr src = search (halts_rules, id_found) depth 9

  the_memory : Yields e (ask (λ e. e.memory)) (λ m. m ≡ e.memory)
  unfolding ask
  the_memory = record { from = λ w. refl }

  pub Halts-pd_load_elf :
      (src pd : ℕ)
      → ((pd_id_vaddr : ℕ)
          → Halts e (load_segments (elf_header e.memory src).e_phnum e.memory src pd_id_vaddr pd 0))
      → Halts e (pd_load_elf src pd)
  unfolding pd_load_elf
  Halts-pd_load_elf src pd segments = Halts-bind _ _ (Halts-find_pd_id_vaddr src) λ pd_id_vaddr.
      Halts-bind_known (λ m. m ≡ e.memory) _ _ (Halts-ask _) the_memory
        λ m is. rw is (
          Halts-bind _ _ (segments pd_id_vaddr) λ _.
            search (halts_rules, caps_halts, Halts-set_up_ipc_buffer, Halts-set_up_access_rights)
              depth 12)
