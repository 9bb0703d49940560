-- ===== src/Caps/Reasons.antt =====
-- Why the functions of `Caps` crash.
use se_l4cp_poc.Prelude.{ℕ, ◌≢◌, refl, inl, inr, arith, ◌==◌, Bool-cases}
use se_l4cp_poc.Machine.State.{Call, Env}
use se_l4cp_poc.Machine.Run.{Prog, invoke, ◌>>=◌}
use se_l4cp_poc.Machine.Issued.{said}
use se_l4cp_poc.Machine.Reasons.{
  last_call, Refused, Refused-Printed, Explains, Tells, Tells-puts, Tells-puthex64, Tells-bind,
  explains_rules,
}
use se_l4cp_poc.Caps.{
  insist, delete_temp_cap, set_priority, set_sched_flags, mint_channel, set_up_channel, set_up_irq,
  pd_restart,
}

module _ {Bad : Type 0} {e : Env} where
  Explains-insist :
      (c : Call) (message : ℕ → Prog (Unit {0}))
      → ((err : ℕ) → Tells e (message err))
      → Explains Bad e (insist c message)
  unfolding insist invoke ◌>>=◌
  Explains-insist c message t = record {
    from = λ w. elim (Bool-cases (e.kernel w.trace c == 0)) [
      | inl accept ↦ rw accept tt
      | inr refusal ↦
          let not : e.kernel w.trace c ≢ 0 = λ p. ground (arith, refusal, p) in
          let answered = said c (e.kernel w.trace c) w in
          let (v, is, same) = (t (e.kernel w.trace c)).from answered in
          rw (refusal, is) (Refused-Printed Bad answered v same _ (not, c, refl))
    ];
  }

  pub Explains-delete_temp_cap : Explains Bad e delete_temp_cap
  unfolding delete_temp_cap
  Explains-delete_temp_cap = search (explains_rules, Explains-insist) depth 9

  pub Explains-set_priority : (pd priority mcp : ℕ) → Explains Bad e (set_priority pd priority mcp)
  unfolding set_priority
  Explains-set_priority pd priority mcp = search (explains_rules, Explains-insist) depth 9

  pub Explains-set_sched_flags :
      (pd budget period : ℕ) → Explains Bad e (set_sched_flags pd budget period)
  unfolding set_sched_flags
  Explains-set_sched_flags pd budget period = search (explains_rules, Explains-insist) depth 9

  Explains-mint_channel :
      (from to channel_from channel_to : ℕ)
      → Explains Bad e (mint_channel from to channel_from channel_to)
  unfolding mint_channel
  Explains-mint_channel from to channel_from channel_to =
      search (explains_rules, Explains-insist) depth 9

  pub Explains-set_up_channel :
      (pd_a pd_b channel_id_a channel_id_b : ℕ)
      → Explains Bad e (set_up_channel pd_a pd_b channel_id_a channel_id_b)
  unfolding set_up_channel
  Explains-set_up_channel pd_a pd_b channel_id_a channel_id_b =
      search (explains_rules, Explains-mint_channel)

  pub Explains-set_up_irq :
      (pd parent_irq_channel_id child_irq_channel_id : ℕ)
      → Explains Bad e (set_up_irq pd parent_irq_channel_id child_irq_channel_id)
  unfolding set_up_irq
  Explains-set_up_irq pd parent_irq_channel_id child_irq_channel_id =
      search (explains_rules, Explains-insist, Explains-delete_temp_cap) depth 12

  pub Explains-pd_restart : (pd entry_point : ℕ) → Explains Bad e (pd_restart pd entry_point)
  unfolding pd_restart
  Explains-pd_restart pd entry_point = search (explains_rules, Explains-insist)

pub ruleset caps_reasons = (
  explains_rules, Explains-delete_temp_cap, Explains-set_priority, Explains-set_sched_flags,
  Explains-set_up_channel, Explains-set_up_irq, Explains-pd_restart,
)
