-- ===== src/Caps/Halts.antt =====
-- Fuel in the functions of `Caps`.
use se_l4cp_poc.Prelude.{ℕ}
use se_l4cp_poc.Machine.State.{Call, Env}
use se_l4cp_poc.Machine.Run.{Prog}
use se_l4cp_poc.Machine.Halts.{
  Halts, halts_rules, Halts-pure, Halts-bind, Halts-bind_known, Halts-failure, Halts-emit, Halts-if,
}
use se_l4cp_poc.Caps.{
  insist, delete_temp_cap, set_priority, set_sched_flags, mint_channel, set_up_channel, set_up_irq,
  pd_restart,
}

module _ {e : Env} where
  pub Halts-insist :
      (c : Call) (message : ℕ → Prog (Unit {0}))
      → ((err : ℕ) → Halts e (message err))
      → Halts e (insist c message)
  unfolding insist
  Halts-insist c message g = search (halts_rules)

  pub Halts-delete_temp_cap : Halts e delete_temp_cap
  unfolding delete_temp_cap
  Halts-delete_temp_cap = search (halts_rules, Halts-insist) depth 9

  pub Halts-set_priority : (pd priority mcp : ℕ) → Halts e (set_priority pd priority mcp)
  unfolding set_priority
  Halts-set_priority pd priority mcp = search (halts_rules, Halts-insist) depth 9

  pub Halts-set_sched_flags : (pd budget period : ℕ) → Halts e (set_sched_flags pd budget period)
  unfolding set_sched_flags
  Halts-set_sched_flags pd budget period = search (halts_rules, Halts-insist) depth 9

  Halts-mint_channel :
      (from to channel_from channel_to : ℕ) → Halts e (mint_channel from to channel_from channel_to)
  unfolding mint_channel
  Halts-mint_channel from to channel_from channel_to = search (halts_rules, Halts-insist) depth 9

  pub Halts-set_up_channel :
      (pd_a pd_b channel_id_a channel_id_b : ℕ)
      → Halts e (set_up_channel pd_a pd_b channel_id_a channel_id_b)
  unfolding set_up_channel
  Halts-set_up_channel pd_a pd_b channel_id_a channel_id_b =
      search (halts_rules, Halts-mint_channel)

  pub Halts-set_up_irq :
      (pd parent_irq_channel_id child_irq_channel_id : ℕ)
      → Halts e (set_up_irq pd parent_irq_channel_id child_irq_channel_id)
  unfolding set_up_irq
  Halts-set_up_irq pd parent_irq_channel_id child_irq_channel_id =
      search (halts_rules, Halts-insist, Halts-delete_temp_cap) depth 12

  pub Halts-pd_restart : (pd entry_point : ℕ) → Halts e (pd_restart pd entry_point)
  unfolding pd_restart
  Halts-pd_restart pd entry_point = search (halts_rules, Halts-insist)

pub ruleset caps_halts = (
  halts_rules, Halts-delete_temp_cap, Halts-set_priority, Halts-set_sched_flags,
  Halts-set_up_channel, Halts-set_up_irq, Halts-pd_restart,
)
