-- ===== src/Caps/Steps.antt =====
-- The functions of `Caps` only add plain events.
use se_l4cp_poc.Prelude.{ℕ}
use se_l4cp_poc.Machine.State.{Event, invoked, Call, Env}
use se_l4cp_poc.Machine.Run.{Prog}
use se_l4cp_poc.Machine.Evolves.{Goes, IsQuiet, Admits, Goes-invoke, goes_rules}
use se_l4cp_poc.Caps.{
  insist, delete_temp_cap, set_priority, set_sched_flags, mint_channel, set_up_channel, set_up_irq,
  pd_restart,
}

module _ {Q : Event → Type 0} {e : Env} (plain : Admits Q) where
  pub Goes-insist :
      (c : Call) (message : ℕ → Prog (Unit {0}))
      → IsQuiet c
      → ((err : ℕ) → Goes Q e (message err))
      → Goes Q e (insist c message)
  unfolding insist
  Goes-insist c message is_quiet g = search (goes_rules, plain)

  pub Goes-delete_temp_cap : Goes Q e delete_temp_cap
  unfolding delete_temp_cap
  Goes-delete_temp_cap = search (goes_rules, Goes-insist, plain) depth 9

  pub Goes-set_priority : (pd priority mcp : ℕ) → Goes Q e (set_priority pd priority mcp)
  unfolding set_priority
  Goes-set_priority pd priority mcp = search (goes_rules, Goes-insist, plain) depth 9

  pub Goes-set_sched_flags : (pd budget period : ℕ) → Goes Q e (set_sched_flags pd budget period)
  unfolding set_sched_flags
  Goes-set_sched_flags pd budget period = search (goes_rules, Goes-insist, plain) depth 9

  Goes-mint_channel :
      (from to channel_from channel_to : ℕ)
      → Goes Q e (mint_channel from to channel_from channel_to)
  unfolding mint_channel
  Goes-mint_channel from to channel_from channel_to =
      search (goes_rules, Goes-insist, plain) depth 9

  pub Goes-set_up_channel :
      (pd_a pd_b channel_id_a channel_id_b : ℕ)
      → Goes Q e (set_up_channel pd_a pd_b channel_id_a channel_id_b)
  unfolding set_up_channel
  Goes-set_up_channel pd_a pd_b channel_id_a channel_id_b = search (goes_rules, Goes-mint_channel)

  pub Goes-set_up_irq :
      (pd parent_irq_channel_id child_irq_channel_id : ℕ)
      → Goes Q e (set_up_irq pd parent_irq_channel_id child_irq_channel_id)
  unfolding set_up_irq
  Goes-set_up_irq pd parent_irq_channel_id child_irq_channel_id =
      search (goes_rules, Goes-insist, Goes-delete_temp_cap, plain) depth 12

  pub Goes-pd_restart :
      ((c : Call) (answer : ℕ) → Q (invoked c answer))
      → (pd entry_point : ℕ) → Goes Q e (pd_restart pd entry_point)
  unfolding pd_restart insist
  Goes-pd_restart starts pd entry_point = search (goes_rules, Goes-invoke, starts, plain) depth 9

pub ruleset caps_rules = (
  goes_rules, Goes-delete_temp_cap, Goes-set_priority, Goes-set_sched_flags, Goes-set_up_channel,
  Goes-set_up_irq,
)
