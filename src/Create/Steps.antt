-- ===== src/Create/Steps.antt =====
-- The functions of `Create` take capabilities from pools that have some left, and add plain events
-- but for what `load_segments` stores.
use se_l4cp_poc.Prelude.{ℕ, zero, suc}
use se_l4cp_poc.Layout.{Pool}
use se_l4cp_poc.Machine.State.{Memory, Event, invoked, Call, Env}
use se_l4cp_poc.Machine.Evolves.{Goes, Admits, goes_rules, Goes-pure, Goes-bind}
use se_l4cp_poc.Machine.Room.{room_rules}
use se_l4cp_poc.Rights.Steps.{Goes-has_protection_domain_control_access_right}
use se_l4cp_poc.Load.{load_segments}
use se_l4cp_poc.Load.Steps.{Goes-pd_load_elf}
use se_l4cp_poc.Create.{
  move_pool_cap, move_pool_caps_from, move_pool_caps, move_unused_caps, take_cap,
  move_if_controlling, copy_cap, share_fixed_caps, share_own_cap, share_own_caps, build_pd,
  pd_create,
}

module _ {Q : Event → Type 0} {e : Env} (plain : Admits Q) where
  pub Goes-move_pool_cap : (cnode : ℕ) (pool : Pool) (i : ℕ) → Goes Q e (move_pool_cap cnode pool i)
  unfolding move_pool_cap
  Goes-move_pool_cap cnode pool i = search (goes_rules, room_rules, plain) depth 9

  Goes-move_pool_caps_from :
      (n cnode : ℕ) (pool : Pool) (i : ℕ) → Goes Q e (move_pool_caps_from n cnode pool i)
  unfolding move_pool_caps_from
  Goes-move_pool_caps_from zero cnode pool i = Goes-pure tt
  Goes-move_pool_caps_from (suc n) cnode pool i =
      Goes-bind _ _ (Goes-move_pool_cap cnode pool i) (λ _. Goes-move_pool_caps_from n cnode pool _)

  pub Goes-move_pool_caps :
      (cnode : ℕ) (pool : Pool) (n : ℕ) → Goes Q e (move_pool_caps cnode pool n)
  unfolding move_pool_caps
  Goes-move_pool_caps cnode pool n = Goes-move_pool_caps_from n cnode pool 0

  Goes-move_unused_caps : (cnode : ℕ) → Goes Q e (move_unused_caps cnode)
  unfolding move_unused_caps
  Goes-move_unused_caps cnode = search (goes_rules, Goes-move_pool_caps, plain) depth 24

  pub Goes-move_if_controlling : (cnode src : ℕ) → Goes Q e (move_if_controlling cnode src)
  unfolding move_if_controlling
  Goes-move_if_controlling cnode src =
      search
        (goes_rules, Goes-has_protection_domain_control_access_right, Goes-move_unused_caps, plain)
        depth 9

  pub Goes-take_cap : (pool : Pool) → Goes Q e (take_cap pool)
  unfolding take_cap
  Goes-take_cap pool = search (goes_rules, room_rules)

  Goes-copy_cap :
      (dest_root dest_index src_root src_index : ℕ)
      → Goes Q e (copy_cap dest_root dest_index src_root src_index)
  unfolding copy_cap
  Goes-copy_cap dest_root dest_index src_root src_index = search (goes_rules, plain)

  Goes-share_fixed_caps :
      (pd cnode notification : ℕ) → Goes Q e (share_fixed_caps pd cnode notification)
  unfolding share_fixed_caps
  Goes-share_fixed_caps pd cnode notification = search (goes_rules, Goes-copy_cap) depth 16

  Goes-share_own_cap : (base pd cnode cap : ℕ) → Goes Q e (share_own_cap base pd cnode cap)
  unfolding share_own_cap
  Goes-share_own_cap base pd cnode cap = search (goes_rules, Goes-copy_cap) depth 9

  Goes-share_own_caps :
      (pd cnode tcb schedcontext vspace : ℕ)
      → Goes Q e (share_own_caps pd cnode tcb schedcontext vspace)
  unfolding share_own_caps
  Goes-share_own_caps pd cnode tcb schedcontext vspace =
      search (goes_rules, Goes-share_own_cap) depth 9

  pub Goes-build_pd : (pd cnode : ℕ) → Goes Q e (build_pd pd cnode)
  unfolding build_pd
  Goes-build_pd pd cnode =
      search (goes_rules, Goes-take_cap, Goes-share_fixed_caps, Goes-share_own_caps, plain) depth 24

  pub Goes-pd_create :
      ((c : Call) (answer : ℕ) → Q (invoked c answer))
      → ((n : ℕ) (m : Memory) (src pd_id_vaddr pd i : ℕ)
          → Goes Q e (load_segments n m src pd_id_vaddr pd i))
      → (pd src : ℕ) → Goes Q e (pd_create pd src)
  unfolding pd_create
  Goes-pd_create starts segments pd src =
      search
        (
          goes_rules, Goes-take_cap, Goes-move_if_controlling, Goes-build_pd, Goes-pd_load_elf,
          starts, segments, plain,
        )
        depth 12
