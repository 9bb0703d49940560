-- ===== src/Create/Ends.antt =====
-- The rounds of `sel4cp_pd_create`, over the loops of the files that it loads.
use se_l4cp_poc.Prelude.{ℕ, ◌<◌, ◌≡◌, subst, arith}
use se_l4cp_poc.Layout.{pt_load}
use se_l4cp_poc.Machine.State.{World, Env}
use se_l4cp_poc.Machine.Halts.{HasEnded}
use se_l4cp_poc.Elf.{elf_header}
use se_l4cp_poc.Load.Halts.{Halts-pd_load_elf}
use se_l4cp_poc.Load.Ends.{HasSizes, header_at, Halts-load_segments}
use se_l4cp_poc.Create.{pd_create}
use se_l4cp_poc.Create.Halts.{Halts-pd_create}

-- If the file's and the memory's size of each segment to load are below 2^64 - 3, then creation
-- ends, whatever else the file contains and whatever the kernel answers: no loop of
-- `sel4cp_pd_create` goes on without end.
pub pd_create-HasEnded :
    (e : Env) (w : World) (pd src : ℕ)
    → ((i : ℕ)
        → i < (elf_header e.memory src).e_phnum
        → (header_at e.memory src i).p_type ≡ pt_load
        → HasSizes (header_at e.memory src i))
    → HasEnded (pd_create pd src e w)
pd_create-HasEnded e w pd src sizes =
    (Halts-pd_create pd src (
        Halts-pd_load_elf src pd λ pd_id_vaddr.
          Halts-load_segments pd_id_vaddr pd e.memory src _ 0 λ k lt.
            subst
              (λ x.
                (header_at e.memory src x).p_type ≡ pt_load → HasSizes (header_at e.memory src x))
              (omega arith) (sizes k lt))).from
      w
