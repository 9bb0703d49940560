-- ===== src/Create/Reasons.antt =====
-- Why `sel4cp_pd_create` fails or crashes.
use se_l4cp_poc.Prelude.{ℕ, zero, suc, inl, inr, ◌==◌, ==_iff, Bool-cases}
use se_l4cp_poc.Layout.{Pool}
use se_l4cp_poc.Machine.State.{World, Env}
use se_l4cp_poc.Machine.Reasons.{
  Explained, Explains, explains_rules, fails_rules, Explains-pure, Explains-bad, Explains-bind,
}
use se_l4cp_poc.Rights.Reasons.{Explains-has_protection_domain_control_access_right}
use se_l4cp_poc.Load.Reasons.{IsBadFile, null, Explains-pd_load_elf}
use se_l4cp_poc.Machine.Run.{◌>>◌}
use se_l4cp_poc.Load.{pd_load_elf}
use se_l4cp_poc.Create.{
  move_pool_cap, move_pool_caps_from, move_pool_caps, move_unused_caps, take_cap,
  move_if_controlling, copy_cap, share_fixed_caps, share_own_cap, share_own_caps, build_pd,
  pd_create,
}

module _ {Bad : Type 0} {e : Env} where
  Explains-move_pool_cap :
      (cnode : ℕ) (pool : Pool) (i : ℕ) → Explains Bad e (move_pool_cap cnode pool i)
  unfolding move_pool_cap
  Explains-move_pool_cap cnode pool i = search explains_rules depth 9

  Explains-move_pool_caps_from :
      (n cnode : ℕ) (pool : Pool) (i : ℕ) → Explains Bad e (move_pool_caps_from n cnode pool i)
  unfolding move_pool_caps_from
  Explains-move_pool_caps_from zero cnode pool i = Explains-pure tt
  Explains-move_pool_caps_from (suc n) cnode pool i =
      Explains-bind _ _ (Explains-move_pool_cap cnode pool i)
        (λ _. Explains-move_pool_caps_from n cnode pool _)

  Explains-move_pool_caps :
      (cnode : ℕ) (pool : Pool) (n : ℕ) → Explains Bad e (move_pool_caps cnode pool n)
  unfolding move_pool_caps
  Explains-move_pool_caps cnode pool n = Explains-move_pool_caps_from n cnode pool 0

  Explains-move_unused_caps : (cnode : ℕ) → Explains Bad e (move_unused_caps cnode)
  unfolding move_unused_caps
  Explains-move_unused_caps cnode = search (explains_rules, Explains-move_pool_caps) depth 24

  Explains-move_if_controlling : (cnode src : ℕ) → Explains Bad e (move_if_controlling cnode src)
  unfolding move_if_controlling
  Explains-move_if_controlling cnode src =
      search
        (
          explains_rules, Explains-has_protection_domain_control_access_right,
          Explains-move_unused_caps,
        )
        depth 9

  Explains-take_cap : (pool : Pool) → Explains Bad e (take_cap pool)
  unfolding take_cap
  Explains-take_cap pool = search explains_rules depth 9

  Explains-copy_cap :
      (dest_root dest_index src_root src_index : ℕ)
      → Explains Bad e (copy_cap dest_root dest_index src_root src_index)
  unfolding copy_cap
  Explains-copy_cap dest_root dest_index src_root src_index = search explains_rules

  Explains-share_fixed_caps :
      (pd cnode notification : ℕ) → Explains Bad e (share_fixed_caps pd cnode notification)
  unfolding share_fixed_caps
  Explains-share_fixed_caps pd cnode notification =
      search (explains_rules, Explains-copy_cap) depth 16

  Explains-share_own_cap :
      (base pd cnode cap : ℕ) → Explains Bad e (share_own_cap base pd cnode cap)
  unfolding share_own_cap
  Explains-share_own_cap base pd cnode cap = search (explains_rules, Explains-copy_cap) depth 9

  Explains-share_own_caps :
      (pd cnode tcb schedcontext vspace : ℕ)
      → Explains Bad e (share_own_caps pd cnode tcb schedcontext vspace)
  unfolding share_own_caps
  Explains-share_own_caps pd cnode tcb schedcontext vspace =
      search (explains_rules, Explains-share_own_cap) depth 9

  Explains-build_pd : (pd cnode : ℕ) → Explains Bad e (build_pd pd cnode)
  unfolding build_pd
  Explains-build_pd pd cnode =
      search (explains_rules, Explains-take_cap, Explains-share_fixed_caps, Explains-share_own_caps)
        depth 24

-- Whatever the kernel answers, creation fails only where `src` is NULL, the file lacks one of the
-- two symbols that are looked up, has the value 0 for that of the PD's identifier, or has an access
-- right of no type; where a pool has no object left; or where the last call to the kernel was
-- refused. It crashes only where the last call was refused, with the error code of that call.
pub pd_create-Explained :
    (e : Env) (w : World) (pd src : ℕ) → Explained (IsBadFile e.memory src) (pd_create pd src e w)
unfolding pd_create
pd_create-Explained e w pd src = created.from w
  where
    loaded :
        (cnode : ℕ) → Explains (IsBadFile e.memory src) e (build_pd pd cnode >> pd_load_elf src pd)
    loaded cnode = Explains-bind _ _ (Explains-build_pd pd cnode) (λ _. Explains-pd_load_elf src pd)

    created : Explains (IsBadFile e.memory src) e (pd_create pd src)
    created = elim (Bool-cases (src == 0)) [
      | inl zero_ ↦
          rw (zero_, pd_create)
            (Explains-bad _ (search fails_rules) (null ((==_iff src 0).0 zero_)))
      | inr given ↦
          rw (given, pd_create)
            (Explains-bind _ _ (Explains-take_cap _) λ cnode.
              Explains-bind _ _ (Explains-move_if_controlling cnode src) (λ _. loaded cnode))
    ]
