-- ===== src/Tests/Wires.antt =====
-- An interrupt line that goes from root to a child: the timer of the virtual machine, line 27.
use se_l4cp_poc.Prelude.{
  zero, ◌+◌, ◌≡◌, refl, ◌∷◌, [], none, some, arith, ◌==◌, ◌&&◌, if◌then◌else◌,
}
use se_l4cp_poc.Layout.{base_irq_cap, base_unbadged_channel_cap}
use se_l4cp_poc.Machine.State.{
  cnode_delete, cnode_mint, cnode_move, irq_handler_set_notification, invoked, Trace,
}
use se_l4cp_poc.Machine.Run.{final, invoke, ◌>>=◌}
use se_l4cp_poc.Caps.{insist, delete_temp_cap, set_up_irq}
use se_l4cp_poc.Domains.Channels.{badged}
use se_l4cp_poc.Domains.Wiring.{
  Wiring, emptied, moved, assigned, IsWired, PassesOn, set_up_irq-PassesOn,
}
use se_l4cp_poc.Tests.Elves.{demo_env, demo_world}

abbrev at_first : Wiring
at_first = record {
  route =
      λ pd slot. if (pd == 0) && (slot == base_unbadged_channel_cap + 1) then some (1, 0) else none;
  handler = λ pd slot. if (pd == 0) && (slot == base_irq_cap + 3) then some 27 else none;
  bound = λ line. none;
}

-- A kernel that does what it documents, for calls of root.
abbrev wiring : Trace → Wiring
wiring [] = at_first
wiring (invoked (cnode_delete service index depth) zero ∷ t) =
    let before = wiring t in
    record before {
      route = emptied service index before.route;
      handler = emptied service index before.handler;
    }
wiring
      (invoked (cnode_mint service index depth src_root src_index src_depth rights badge) zero
        ∷ t) =
    let before = wiring t in
    record before { route = badged service index src_root src_index badge before.route }
wiring (invoked (irq_handler_set_notification service notification) zero ∷ t) =
    let before = wiring t in
    record before {
      bound = assigned (before.handler 0 service) (before.route 0 notification) before.bound;
    }
wiring (invoked (cnode_move service index depth src_root src_index src_depth) zero ∷ t) =
    let before = wiring t in
    record before {
      route = moved service index src_root src_index before.route;
      handler = moved service index src_root src_index before.handler;
    }
wiring (_ ∷ t) = wiring t

wiring-IsWired : IsWired 0 wiring
wiring-IsWired = record {
  delete_law = λ service index depth t. refl;
  mint_law = λ service index depth src_root src_index src_depth rights badge t. refl;
  set_notification_law = λ service notification t. refl;
  move_law = λ service index depth src_root src_index src_depth t. refl;
}

set_up_irq-PassesOn_example :
    PassesOn demo_env 1 3 5 wiring 27 (set_up_irq 1 3 5 demo_env demo_world)
set_up_irq-PassesOn_example =
    set_up_irq-PassesOn wiring demo_env demo_world 1 3 5 27 wiring-IsWired (omega arith)
      (omega arith) (omega arith) (λ p. omega (arith, p)) refl refl

set_up_irq-wired :
    (wiring (final (set_up_irq 1 3 5 demo_env demo_world)).trace).bound 27 ≡ some (1, 32)
unfolding set_up_irq delete_temp_cap insist invoke ◌>>=◌
set_up_irq-wired = refl
