-- ===== src/Create/Start.antt =====
-- When `sel4cp_pd_create` lets the new PD run.
use se_l4cp_poc.Prelude.{
  ℕ, ◌+◌, ◌≡◌, ◌≢◌, refl, sym, ◌⊎◌, inl, inr, Bool, true, false, ◌∷◌, arith, ◌==◌, if◌then◌else◌,
  Bool-cases, ==_iff,
}
use se_l4cp_poc.Prelude.Words.{u32}
use se_l4cp_poc.Layout.{cnodes, base_tcb_cap}
use se_l4cp_poc.Machine.State.{Call, tcb_write_registers, invoked, printed, World, Env}
use se_l4cp_poc.Machine.Run.{
  Run, ok, fail, crash, out_of_fuel, final, Prog, and_then, ask, invoke, ◌>>=◌, failure,
}
use se_l4cp_poc.Machine.Evolves.{
  Evolves, here, Evolves-trans, Goes-puts, goes_rules, IsStill, IsPlain-IsStill, Goes,
}
use se_l4cp_poc.Elf.{elf_header}
use se_l4cp_poc.Load.Stores.{Goes-load_segments}
use se_l4cp_poc.Load.Steps.{Goes-find_pd_id_vaddr, Goes-set_up_ipc_buffer}
use se_l4cp_poc.Rights.Steps.{Goes-set_up_access_rights}
use se_l4cp_poc.Create.Steps.{Goes-take_cap, Goes-move_if_controlling, Goes-build_pd}
use se_l4cp_poc.Caps.{insist, pd_restart}
use se_l4cp_poc.Load.{pd_load_elf}
use se_l4cp_poc.Create.{pd_create}

module _ (pd entry_point : ℕ) where
  -- The call that lets the new PD run at its entry point.
  abbrev pub start : Call
  start = tcb_write_registers (u32 (base_tcb_cap + pd)) true 0 1 entry_point

  -- From `w`, the new PD is let run by the last event of a run that returns, and by none before. A
  -- run that fails lets none run. One that crashes lets none run or was refused that call.
  abbrev pub StartsLast : World → Run (Unit {0}) → Type 0
  StartsLast w (ok _ v) = (u : World) × Evolves IsStill w u × (v.trace ≡ invoked start 0 ∷ u.trace)
  StartsLast w (fail v) = Evolves IsStill w v
  StartsLast w (crash err v) =
      Evolves IsStill w v
      ⊎ ((u : World) × Evolves IsStill w u
          × (err ≢ 0)
          × (v.trace
              ≡ printed "sel4cp_internal_pd_restart: error writing registers\n"
                ∷ invoked start err
                ∷ u.trace))
  StartsLast w (out_of_fuel v) = Evolves IsStill w v

  record Starts (e : Env) (m : Prog (Unit {0})) : Type 0 where
    from : (w : World) → StartsLast w (m e w)

  later : (w u : World) (r : Run (Unit {0})) → Evolves IsStill w u → StartsLast u r → StartsLast w r
  later w u (ok _ v) p (x, q, is) = (x, Evolves-trans p q, is)
  later w u (fail v) p q = Evolves-trans p q
  later w u (crash err v) p (inl q) = inl (Evolves-trans p q)
  later w u (crash err v) p (inr (x, q, refused, is)) = inr (x, Evolves-trans p q, refused, is)
  later w u (out_of_fuel v) p q = Evolves-trans p q

  module _ {e : Env} where
    Starts-bind :
        {A : Type 0} (m : Prog A) (k : A → Prog (Unit {0}))
        → Goes IsStill e m
        → ((a : A) → Starts e (k a))
        → Starts e (m >>= k)
    unfolding ◌>>=◌
    Starts-bind m k g s = record { from = λ w. go w (m e w) (g.from w) }
      where
        go :
            (w : World) (r : Run _)
            → Evolves IsStill w (final r)
            → StartsLast w (and_then r (λ a. k a e))
        go w (ok a u) p = later w u (k a e u) p ((s a).from u)
        go w (fail u) p = p
        go w (crash err u) p = inl p
        go w (out_of_fuel u) p = p

    Starts-ask :
        {A : Type 0} (f : Env → A) (k : A → Prog (Unit {0}))
        → Starts e (k (f e))
        → Starts e (ask f >>= k)
    unfolding ◌>>=◌
    Starts-ask f k s = record { from = λ w. s.from w }

    Starts-failure : Starts e failure
    unfolding failure
    Starts-failure = record { from = λ w. here }

    Starts-if :
        (b : Bool) (m n : Prog (Unit {0})) → Starts e m → Starts e n → Starts e (if b then m else n)
    Starts-if true m n sm sn = sm
    Starts-if false m n sm sn = sn

    Starts-pd_restart : Starts e (pd_restart pd entry_point)
    unfolding pd_restart insist invoke ◌>>=◌
    Starts-pd_restart = record {
      from = λ w. elim (Bool-cases (e.kernel w.trace start == 0)) [
        | inl accept ↦
            let is : e.kernel w.trace start ≡ 0 = (==_iff _ _).0 accept in
            rw accept (w, here, rw is refl)
        | inr refusal ↦ rw refusal (inr (w, here, (λ p. ground (arith, refusal, p)), refl))
      ];
    }

    Starts-pd_load_elf :
        (src : ℕ) → entry_point ≡ (elf_header e.memory src).e_entry → Starts e (pd_load_elf src pd)
    unfolding pd_load_elf
    Starts-pd_load_elf src entry =
        Starts-bind _ _ (Goes-find_pd_id_vaddr IsPlain-IsStill src) λ pd_id_vaddr. Starts-ask _ _ (
          Starts-bind _ _ (Goes-load_segments (λ ev p. p) pd_id_vaddr pd _ e.memory src 0) λ _.
            Starts-bind _ _ (search (goes_rules, Goes-set_up_ipc_buffer, IsPlain-IsStill)) λ _.
              Starts-bind _ _ (search (goes_rules, Goes-set_up_access_rights, IsPlain-IsStill))
                λ _. rw (sym entry) Starts-pd_restart)

    Starts-pd_create :
        (src : ℕ) → entry_point ≡ (elf_header e.memory src).e_entry → Starts e (pd_create pd src)
    unfolding pd_create
    Starts-pd_create src entry =
        Starts-if _ _ _ (Starts-bind _ _ (Goes-puts IsPlain-IsStill _) (λ _. Starts-failure)) (
          Starts-bind _ _ (Goes-take_cap IsPlain-IsStill cnodes) λ cnode_cap.
            Starts-bind _ _ (Goes-move_if_controlling IsPlain-IsStill cnode_cap src) λ _.
              Starts-bind _ _ (Goes-build_pd IsPlain-IsStill pd cnode_cap)
                λ _. Starts-pd_load_elf src entry)

-- Whatever the ELF file and the kernel's answers: if `sel4cp_pd_create` returns without an error,
-- its last event, and no earlier one, is the accepted call that lets the new PD run at the entry
-- point of the file. If it fails, it has let no PD run; if it crashes, neither, or that call was
-- refused.
pub pd_create-StartsLast :
    (e : Env) (w : World) (pd src : ℕ)
    → StartsLast pd (elf_header e.memory src).e_entry w (pd_create pd src e w)
pd_create-StartsLast e w pd src =
    (Starts-pd_create pd (elf_header e.memory src).e_entry {e = e} src refl).from w
