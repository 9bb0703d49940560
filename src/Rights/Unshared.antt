-- ===== src/Rights/Unshared.antt =====
-- Page tables and messages, which change no shared page.
use se_l4cp_poc.Prelude.{ℕ, refl, String}
use se_l4cp_poc.Machine.State.{Trace, World, Env}
use se_l4cp_poc.Machine.Run.{invoke, increment, dbg_puts, dbg_puthex64}
use se_l4cp_poc.Machine.Leaves.{Leaves, Leaves-emit, Leaves-invoke, leaves_rules}
use se_l4cp_poc.Paging.{
  Level, upper_directory, directory, table, level_pool, level_map, conclude_level, ensure_level,
  set_up_required_paging_structures,
}
use se_l4cp_poc.Rights.Regions.{Sharing, IsSharing}

module _ (e : Env) (sharing : Trace → Sharing) (law : IsSharing e.current_pd_id sharing) where
  abbrev pub shared_in : World → Sharing
  shared_in w = sharing w.trace

  unshared-increment : (level : Level) → Leaves shared_in e (increment (level_pool level))
  unfolding increment
  unshared-increment upper_directory = record { from = λ w. refl }
  unshared-increment directory = record { from = λ w. refl }
  unshared-increment table = record { from = λ w. refl }

  unshared-puts : (s : String) → Leaves shared_in e (dbg_puts s)
  unshared-puts s = Leaves-emit _ (λ w. law.puts_law s w.trace)

  unshared-puthex64 : (n : ℕ) → Leaves shared_in e (dbg_puthex64 n)
  unshared-puthex64 n = Leaves-emit _ (λ w. law.puthex64_law n w.trace)

  unshared-table :
      (level : Level) (service vspace vaddr attr : ℕ)
      → Leaves shared_in e (invoke (level_map level service vspace vaddr attr))
  unshared-table level service vspace vaddr attr =
      Leaves-invoke _ (λ answer w. law.table_law level service vspace vaddr attr answer w.trace)

  unshared-ensure_level :
      (level : Level) (vaddr vspace : ℕ) → Leaves shared_in e (ensure_level level vaddr vspace)
  unfolding ensure_level conclude_level
  unshared-ensure_level level vaddr vspace =
      search (leaves_rules, unshared-puts, unshared-puthex64, unshared-table, unshared-increment)
        depth 16

  pub unshared-set_up :
      (vaddr vspace : ℕ) → Leaves shared_in e (set_up_required_paging_structures vaddr vspace)
  unfolding set_up_required_paging_structures
  unshared-set_up vaddr vspace = search (leaves_rules, unshared-ensure_level)
