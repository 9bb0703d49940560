-- ===== src/Create/Halts.antt =====
-- Fuel in the functions of `Create`.
use se_l4cp_poc.Prelude.{ℕ, zero, suc}
use se_l4cp_poc.Layout.{Pool}
use se_l4cp_poc.Machine.State.{Env}
use se_l4cp_poc.Machine.Halts.{
  Halts, halts_rules, Halts-pure, Halts-bind, Halts-failure, Halts-emit, Halts-if,
}
use se_l4cp_poc.Rights.Halts.{Halts-has_protection_domain_control_access_right}
use se_l4cp_poc.Load.{pd_load_elf}
use se_l4cp_poc.Create.{
  move_pool_cap, move_pool_caps_from, move_pool_caps, move_unused_caps, take_cap,
  move_if_controlling, copy_cap, share_fixed_caps, share_own_cap, share_own_caps, build_pd,
  pd_create,
}

module _ {e : Env} where
  pub Halts-move_pool_cap : (cnode : ℕ) (pool : Pool) (i : ℕ) → Halts e (move_pool_cap cnode pool i)
  unfolding move_pool_cap
  Halts-move_pool_cap cnode pool i = search (halts_rules) depth 9

  Halts-move_pool_caps_from :
      (n cnode : ℕ) (pool : Pool) (i : ℕ) → Halts e (move_pool_caps_from n cnode pool i)
  unfolding move_pool_caps_from
  Halts-move_pool_caps_from zero cnode pool i = Halts-pure tt
  Halts-move_pool_caps_from (suc n) cnode pool i =
      Halts-bind _ _ (Halts-move_pool_cap cnode pool i)
        (λ _. Halts-move_pool_caps_from n cnode pool _)

  pub Halts-move_pool_caps :
      (cnode : ℕ) (pool : Pool) (n : ℕ) → Halts e (move_pool_caps cnode pool n)
  unfolding move_pool_caps
  Halts-move_pool_caps cnode pool n = Halts-move_pool_caps_from n cnode pool 0

  Halts-move_unused_caps : (cnode : ℕ) → Halts e (move_unused_caps cnode)
  unfolding move_unused_caps
  Halts-move_unused_caps cnode = search (halts_rules, Halts-move_pool_caps) depth 24

  pub Halts-move_if_controlling : (cnode src : ℕ) → Halts e (move_if_controlling cnode src)
  unfolding move_if_controlling
  Halts-move_if_controlling cnode src =
      search (halts_rules, Halts-has_protection_domain_control_access_right, Halts-move_unused_caps)
        depth 9

  pub Halts-take_cap : (pool : Pool) → Halts e (take_cap pool)
  unfolding take_cap
  Halts-take_cap pool = search (halts_rules)

  Halts-copy_cap :
      (dest_root dest_index src_root src_index : ℕ)
      → Halts e (copy_cap dest_root dest_index src_root src_index)
  unfolding copy_cap
  Halts-copy_cap dest_root dest_index src_root src_index = search (halts_rules)

  Halts-share_fixed_caps :
      (pd cnode notification : ℕ) → Halts e (share_fixed_caps pd cnode notification)
  unfolding share_fixed_caps
  Halts-share_fixed_caps pd cnode notification = search (halts_rules, Halts-copy_cap) depth 16

  Halts-share_own_cap : (base pd cnode cap : ℕ) → Halts e (share_own_cap base pd cnode cap)
  unfolding share_own_cap
  Halts-share_own_cap base pd cnode cap = search (halts_rules, Halts-copy_cap) depth 9

  Halts-share_own_caps :
      (pd cnode tcb schedcontext vspace : ℕ)
      → Halts e (share_own_caps pd cnode tcb schedcontext vspace)
  unfolding share_own_caps
  Halts-share_own_caps pd cnode tcb schedcontext vspace =
      search (halts_rules, Halts-share_own_cap) depth 9

  pub Halts-build_pd : (pd cnode : ℕ) → Halts e (build_pd pd cnode)
  unfolding build_pd
  Halts-build_pd pd cnode =
      search (halts_rules, Halts-take_cap, Halts-share_fixed_caps, Halts-share_own_caps) depth 24

  pub Halts-pd_create : (pd src : ℕ) → Halts e (pd_load_elf src pd) → Halts e (pd_create pd src)
  unfolding pd_create
  Halts-pd_create pd src load =
      Halts-if _ _ _ (Halts-bind _ _ (Halts-emit _) (λ _. Halts-failure)) (
        Halts-bind _ _ (Halts-take_cap _) λ cnode_cap.
          Halts-bind _ _ (Halts-move_if_controlling cnode_cap src)
            λ _. Halts-bind _ _ (Halts-build_pd pd cnode_cap) λ _. load)
