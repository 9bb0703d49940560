-- ===== src/Create.antt =====
-- `sel4cp_internal_move_pool_caps` and `sel4cp_pd_create`.
pub mod Steps
pub mod Halts
pub mod Reasons
pub mod Ends
pub mod Bounds
pub mod Count
pub mod Start
pub mod Script
pub mod Slots
pub mod Handover
pub mod Shares
pub mod Endowment
pub mod Bestowed
use se_l4cp_poc.Prelude.{ℕ, zero, suc, ◌+◌, ◌-◌, ◌*◌, leb, ◌==◌, if◌then◌else◌}
use se_l4cp_poc.Prelude.Words.{u32, u64}
use se_l4cp_poc.Kernel.{sel4_all_rights}
use se_l4cp_poc.Layout.{
  Pool, tcbs, notifications, cnodes, schedcontexts, vspaces, page_upper_directories,
  page_directories, page_tables, pages, pool_num, pool_base, pool_num_pd_targets_child, pd_cap_bits,
  input_cap_idx, fault_ep_cap_idx, asid_pool_cap_idx, sched_control_cap_idx, base_cnode_cap,
  base_tcb_cap, base_sched_context_cap, base_unbadged_channel_cap, base_vspace_cap,
}
use se_l4cp_poc.Machine.State.{
  cnode_copy, cnode_move, arm_asid_pool_assign, tcb_set_space, tcb_bind_notification,
}
use se_l4cp_poc.Machine.Run.{
  Prog, ◌>>=◌, ◌>>◌, pure, failure, on_fail, ask, dbg_puts, try, get_idx, increment,
}
use se_l4cp_poc.Rights.{has_protection_domain_control_access_right}
use se_l4cp_poc.Load.{pd_load_elf}

-- The body of the loop of `sel4cp_internal_move_pool_caps`. The source's arguments for a pool are
-- its first slot, its field of `alloc_state` and its size.
unfoldable pub move_pool_cap : (target_cnode : ℕ) → Pool → ℕ → Prog (Unit {0})
move_pool_cap target_cnode pool i = do
  k ← get_idx pool
  if leb (pool_num pool) k then failure else do
    current ← ask (λ e. e.current_pd_id)
    try (
        cnode_move target_cnode (u64 (pool_base pool + i)) pd_cap_bits
          (u32 (base_cnode_cap + current)) (u64 (pool_base pool + k)) pd_cap_bits)
    increment pool

-- The loop, with `n` rounds left from `i`.
unfoldable pub move_pool_caps_from : ℕ → (target_cnode : ℕ) → Pool → ℕ → Prog (Unit {0})
move_pool_caps_from zero target_cnode pool i = pure tt
move_pool_caps_from (suc n) target_cnode pool i = do
  move_pool_cap target_cnode pool i
  move_pool_caps_from n target_cnode pool (i + 1)

unfoldable pub move_pool_caps : (target_cnode : ℕ) → Pool → (num_caps_to_copy : ℕ) → Prog (Unit {0})
move_pool_caps target_cnode pool num_caps_to_copy =
    move_pool_caps_from num_caps_to_copy target_cnode pool 0

-- The nine calls under `||` in `sel4cp_pd_create`.
unfoldable pub move_unused_caps : (cnode_cap : ℕ) → Prog (Unit {0})
move_unused_caps cnode_cap =
    on_fail
      (do
        move_pool_caps cnode_cap tcbs pool_num_pd_targets_child
        move_pool_caps cnode_cap notifications pool_num_pd_targets_child
        move_pool_caps cnode_cap cnodes pool_num_pd_targets_child
        move_pool_caps cnode_cap schedcontexts pool_num_pd_targets_child
        move_pool_caps cnode_cap vspaces pool_num_pd_targets_child
        move_pool_caps cnode_cap page_upper_directories (pool_num_pd_targets_child * 2)
        move_pool_caps cnode_cap page_directories (pool_num_pd_targets_child * 4)
        move_pool_caps cnode_cap page_tables (pool_num_pd_targets_child * 6)
        move_pool_caps cnode_cap pages (pool_num_pd_targets_child * 30))
      (dbg_puts
        "sel4cp_pd_create: failed to move capabilities for unused pool objects to the new PD\n")

-- `if (alloc_state.x_idx >= POOL_NUM_X) return -1; x_cap = BASE_X_POOL + alloc_state.x_idx++;`
unfoldable pub take_cap : Pool → Prog ℕ
take_cap pool = do
  i ← get_idx pool
  if leb (pool_num pool) i then failure else (do increment pool; pure (u64 (pool_base pool + i)))

unfoldable pub move_if_controlling : (cnode_cap src : ℕ) → Prog (Unit {0})
move_if_controlling cnode_cap src = do
  controls ← has_protection_domain_control_access_right src
  if controls then move_unused_caps cnode_cap else pure tt

-- `seL4_CNode_Copy` at full depth with all rights, or -1.
unfoldable pub copy_cap : (dest_root dest_index src_root src_index : ℕ) → Prog (Unit {0})
copy_cap dest_root dest_index src_root src_index =
    try (cnode_copy dest_root dest_index pd_cap_bits src_root src_index pd_cap_bits sel4_all_rights)

-- The fixed capabilities of the new PD, 1 to 3 in the source.
unfoldable pub share_fixed_caps : (pd cnode_cap notification_cap : ℕ) → Prog (Unit {0})
share_fixed_caps pd cnode_cap notification_cap = do
  current ← ask (λ e. e.current_pd_id)
  let own_cnode = u32 (base_cnode_cap + current)
  copy_cap cnode_cap sched_control_cap_idx own_cnode sched_control_cap_idx
  copy_cap cnode_cap input_cap_idx own_cnode notification_cap
  copy_cap cnode_cap (u32 (base_unbadged_channel_cap + pd)) cnode_cap input_cap_idx
  copy_cap own_cnode (u32 (base_unbadged_channel_cap + pd)) cnode_cap input_cap_idx
  copy_cap cnode_cap asid_pool_cap_idx own_cnode asid_pool_cap_idx

-- A capability of the new PD to an object of its own, for itself and for its creator.
unfoldable pub share_own_cap : (base pd cnode_cap cap : ℕ) → Prog (Unit {0})
share_own_cap base pd cnode_cap cap = do
  current ← ask (λ e. e.current_pd_id)
  copy_cap cnode_cap (u32 (base + pd)) (u32 (base_cnode_cap + current)) cap
  copy_cap (u32 (base_cnode_cap + current)) (u32 (base + pd)) (u32 (base_cnode_cap + current)) cap

-- The capabilities of the new PD to its own objects, 4 to 7 in the source.
unfoldable pub share_own_caps :
    (pd cnode_cap tcb_cap schedcontext_cap vspace_cap : ℕ) → Prog (Unit {0})
share_own_caps pd cnode_cap tcb_cap schedcontext_cap vspace_cap = do
  share_own_cap base_tcb_cap pd cnode_cap tcb_cap
  share_own_cap base_sched_context_cap pd cnode_cap schedcontext_cap
  share_own_cap base_cnode_cap pd cnode_cap cnode_cap
  share_own_cap base_vspace_cap pd cnode_cap vspace_cap

-- The VSpace, CSpace and fault endpoint of the new TCB, and its notification.
abbrev pub bind_objects : (tcb_cap cnode_cap vspace_cap notification_cap : ℕ) → Prog (Unit {0})
bind_objects tcb_cap cnode_cap vspace_cap notification_cap = do
  try (tcb_set_space tcb_cap fault_ep_cap_idx cnode_cap (64 - pd_cap_bits) vspace_cap 0)
  try (tcb_bind_notification tcb_cap notification_cap)

-- The objects of the new PD but its CNode, and what ties them together.
unfoldable pub build_pd : (pd cnode_cap : ℕ) → Prog (Unit {0})
build_pd pd cnode_cap = do
  tcb_cap ← take_cap tcbs
  notification_cap ← take_cap notifications
  schedcontext_cap ← take_cap schedcontexts
  vspace_cap ← take_cap vspaces
  try (arm_asid_pool_assign asid_pool_cap_idx vspace_cap)
  share_fixed_caps pd cnode_cap notification_cap
  share_own_caps pd cnode_cap tcb_cap schedcontext_cap vspace_cap
  bind_objects tcb_cap cnode_cap vspace_cap notification_cap

unfoldable pub pd_create : (pd src : ℕ) → Prog (Unit {0})
pd_create pd src =
    if src == 0 then (dbg_puts "sel4cp_pd_create: invalid ELF program\n" >> failure) else do
      cnode_cap ← take_cap cnodes
      move_if_controlling cnode_cap src
      build_pd pd cnode_cap
      pd_load_elf src pd
