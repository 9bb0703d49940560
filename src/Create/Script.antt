-- ===== src/Create/Script.antt =====
-- The calls by which `sel4cp_pd_create` builds a PD from its objects, and those of an access right.
use se_l4cp_poc.Prelude.{
  ℕ, ◌+◌, ◌-◌, ◌≤◌, ◌<◌, ◌≡◌, refl, ◌⊎◌, inl, inr, List, [], ◌∷◌, ◌++◌, arith, leb, leb→le,
  leb_false→lt, Bool-cases, leb-false, le→leb,
}
use se_l4cp_poc.Prelude.Words.{u32, u64}
use se_l4cp_poc.Kernel.{sel4_all_rights}
use se_l4cp_poc.Layout.{
  Pool, tcbs, notifications, schedcontexts, vspaces, pool_num, pool_base, pd_cap_bits,
  input_cap_idx, fault_ep_cap_idx, asid_pool_cap_idx, sched_control_cap_idx, base_cnode_cap,
  base_tcb_cap, base_sched_context_cap, base_unbadged_channel_cap, base_vspace_cap,
}
use se_l4cp_poc.Machine.State.{
  Call, cnode_copy, arm_asid_pool_assign, tcb_set_space, tcb_bind_notification, idx, set_idx, World,
  Env,
}
use se_l4cp_poc.Machine.Run.{Run, ok, fail, Prog, ◌>>=◌, ◌>>◌, try}
use se_l4cp_poc.Machine.Room.{HasRoom}
use se_l4cp_poc.Machine.Issued.{Issued, Issues, Issues-try, Issues-bind, Issues-next, issues_rules}
use se_l4cp_poc.Create.{
  take_cap, copy_cap, share_fixed_caps, share_own_cap, share_own_caps, build_pd,
}

-- A copy with all rights between slots of two CNodes.
abbrev pub copy : (dest_root dest_index src_root src_index : ℕ) → Call
copy dest_root dest_index src_root src_index =
    cnode_copy dest_root dest_index pd_cap_bits src_root src_index pd_cap_bits sel4_all_rights

-- SchedControl, the notification under its three names, and the ASID pool.
abbrev pub fixed_calls : (own_cnode pd cnode notification : ℕ) → List Call
fixed_calls own_cnode pd cnode notification =
    copy cnode sched_control_cap_idx own_cnode sched_control_cap_idx
    ∷ copy cnode input_cap_idx own_cnode notification
    ∷ copy cnode (u32 (base_unbadged_channel_cap + pd)) cnode input_cap_idx
    ∷ copy own_cnode (u32 (base_unbadged_channel_cap + pd)) cnode input_cap_idx
    ∷ copy cnode asid_pool_cap_idx own_cnode asid_pool_cap_idx
    ∷ []

-- An object of the PD, for itself and for its creator.
abbrev pub own_calls : (own_cnode pd cnode base cap : ℕ) → List Call
own_calls own_cnode pd cnode base cap =
    copy cnode (u32 (base + pd)) own_cnode cap ∷ copy own_cnode (u32 (base + pd)) own_cnode cap ∷ []

-- All calls, from the VSpace's address space identifier to the notification that is bound.
abbrev pub pd_calls : (own_cnode pd cnode tcb notification schedcontext vspace : ℕ) → List Call
pd_calls own_cnode pd cnode tcb notification schedcontext vspace =
    arm_asid_pool_assign asid_pool_cap_idx vspace ∷ fixed_calls own_cnode pd cnode notification
    ++ own_calls own_cnode pd cnode base_tcb_cap tcb
    ++ own_calls own_cnode pd cnode base_sched_context_cap schedcontext
    ++ own_calls own_cnode pd cnode base_cnode_cap cnode
    ++ own_calls own_cnode pd cnode base_vspace_cap vspace
    ++ tcb_set_space tcb fault_ep_cap_idx cnode (64 - pd_cap_bits) vspace 0
      ∷ tcb_bind_notification tcb notification
      ∷ []

abbrev pub taken : Pool → World → World
taken pool w = record w { alloc_state = set_idx pool (idx pool w.alloc_state + 1) w.alloc_state }

pub exact_index :
    (pool : Pool) (i : ℕ) → i < pool_num pool → u64 (pool_base pool + i) ≡ pool_base pool + i
exact_index tcbs i room = omega arith
exact_index _ i room = omega arith

take_cap-room :
    (e : Env) (pool : Pool) (w : World)
    → HasRoom pool w
    → take_cap pool e w ≡ ok (pool_base pool + idx pool w.alloc_state) (taken pool w)
unfolding take_cap ◌>>=◌
take_cap-room e pool w room = rw (leb-false _ _ room, exact_index pool _ room) refl

take_cap-empty :
    (e : Env) (pool : Pool) (w : World)
    → pool_num pool ≤ idx pool w.alloc_state
    → take_cap pool e w ≡ fail w
unfolding take_cap ◌>>=◌
take_cap-empty e pool w empty = rw (le→leb _ _ empty) refl

module _ (e : Env) where
  abbrev pub own_cnode_of : ℕ
  own_cnode_of = u32 (base_cnode_cap + e.current_pd_id)

  Issues-copy_cap :
      (dest_root dest_index src_root src_index : ℕ)
      → Issues e
          (copy dest_root dest_index src_root src_index ∷ [])
          (copy_cap dest_root dest_index src_root src_index)
  unfolding copy_cap
  Issues-copy_cap dest_root dest_index src_root src_index = Issues-try _

  Issues-share_fixed_caps :
      (pd cnode notification : ℕ)
      → Issues e
          (fixed_calls own_cnode_of pd cnode notification)
          (share_fixed_caps pd cnode notification)
  unfolding share_fixed_caps
  Issues-share_fixed_caps pd cnode notification = search (issues_rules, Issues-copy_cap) depth 16

  Issues-share_own_cap :
      (base pd cnode cap : ℕ)
      → Issues e (own_calls own_cnode_of pd cnode base cap) (share_own_cap base pd cnode cap)
  unfolding share_own_cap
  Issues-share_own_cap base pd cnode cap = search (issues_rules, Issues-copy_cap) depth 16

  Issues-share_own_caps :
      (pd cnode tcb schedcontext vspace : ℕ)
      → Issues e
          (own_calls own_cnode_of pd cnode base_tcb_cap tcb
            ++ own_calls own_cnode_of pd cnode base_sched_context_cap schedcontext
            ++ own_calls own_cnode_of pd cnode base_cnode_cap cnode
            ++ own_calls own_cnode_of pd cnode base_vspace_cap vspace)
          (share_own_caps pd cnode tcb schedcontext vspace)
  unfolding share_own_caps
  Issues-share_own_caps pd cnode tcb schedcontext vspace =
      Issues-bind (own_calls own_cnode_of pd cnode base_tcb_cap tcb) _ _ _
        (Issues-share_own_cap _ pd cnode tcb)
        (Issues-bind (own_calls own_cnode_of pd cnode base_sched_context_cap schedcontext) _ _ _
          (Issues-share_own_cap _ pd cnode schedcontext)
          (Issues-bind (own_calls own_cnode_of pd cnode base_cnode_cap cnode) _ _ _
            (Issues-share_own_cap _ pd cnode cnode) (Issues-share_own_cap _ pd cnode vspace)))

  -- `build_pd` behind its allocations.
  abbrev wire : (pd cnode tcb notification schedcontext vspace : ℕ) → Prog (Unit {0})
  wire pd cnode tcb notification schedcontext vspace = do
    try (arm_asid_pool_assign asid_pool_cap_idx vspace)
    share_fixed_caps pd cnode notification
    share_own_caps pd cnode tcb schedcontext vspace
    try (tcb_set_space tcb fault_ep_cap_idx cnode (64 - pd_cap_bits) vspace 0)
    try (tcb_bind_notification tcb notification)

  Issues-wire :
      (pd cnode tcb notification schedcontext vspace : ℕ)
      → Issues e
          (pd_calls own_cnode_of pd cnode tcb notification schedcontext vspace)
          (wire pd cnode tcb notification schedcontext vspace)
  Issues-wire pd cnode tcb notification schedcontext vspace = Issues-next _ _ _ _ (Issues-try _) (
      Issues-bind (fixed_calls own_cnode_of pd cnode notification) _ _ _
        (Issues-share_fixed_caps pd cnode notification)
        (Issues-bind _ _ _ _ (Issues-share_own_caps pd cnode tcb schedcontext vspace)
          (Issues-next _ _ _ _ (Issues-try _) (Issues-try _))))

  abbrev IsEmpty : Pool → World → Type 0
  IsEmpty pool w = pool_num pool ≤ idx pool w.alloc_state

  abbrev next_of : Pool → World → ℕ
  next_of pool w = pool_base pool + idx pool w.alloc_state

  abbrev all_taken : World → World
  all_taken w = taken vspaces (taken schedcontexts (taken notifications (taken tcbs w)))

  -- Either every pool has an object left, and from the world in which these are taken the calls for
  -- them are made, or one has none, and the run fails without any event.
  abbrev pub Builds : (pd cnode : ℕ) → World → Run (Unit {0}) → Type 0
  Builds pd cnode w r =
      (HasRoom tcbs w
        × HasRoom notifications w
        × HasRoom schedcontexts w
        × HasRoom vspaces w
        × Issued e
            (pd_calls own_cnode_of pd cnode (next_of tcbs w) (next_of notifications w)
              (next_of schedcontexts w) (next_of vspaces w))
            (all_taken w) r)
      ⊎ ((IsEmpty tcbs w
            ⊎ (IsEmpty notifications w ⊎ (IsEmpty schedcontexts w ⊎ IsEmpty vspaces w)))
          × (v : World) × (r ≡ fail v)
          × (v.trace ≡ w.trace))

  pub room_or_IsEmpty : (pool : Pool) (w : World) → HasRoom pool w ⊎ IsEmpty pool w
  room_or_IsEmpty pool w = elim (Bool-cases (leb (pool_num pool) (idx pool w.alloc_state))) [
    | inl full ↦ inr (leb→le _ _ full)
    | inr room ↦ inl (leb_false→lt _ _ room)
  ]

  -- `sel4cp_pd_create` behind the capabilities that a controlling PD gets: if an object of each
  -- kind is left in its pool, the calls that are made are those of the list for the first of these
  -- objects, in this order, up to the first that is refused, which fails; if all are accepted, it
  -- succeeds. If an object is missing, it fails without a call.
  pub build_pd-Builds : (pd cnode : ℕ) (w : World) → Builds pd cnode w (build_pd pd cnode e w)
  unfolding build_pd ◌>>=◌
  build_pd-Builds pd cnode w = elim (room_or_IsEmpty tcbs w) [
    | inr none_left ↦ rw (take_cap-empty e tcbs w none_left) (inr (inl none_left, _, refl, refl))
    | inl tcb ↦ rw (take_cap-room e tcbs w tcb) (elim (room_or_IsEmpty notifications w) [
      | inr none_left ↦
          rw (take_cap-empty e notifications (taken tcbs w) none_left)
            (inr (inr (inl none_left), _, refl, refl))
      | inl notification ↦
          rw (take_cap-room e notifications (taken tcbs w) notification)
            (elim (room_or_IsEmpty schedcontexts w) [
              | inr none_left ↦
                  rw (take_cap-empty e schedcontexts (taken notifications (taken tcbs w)) none_left)
                    (inr (inr (inr (inl none_left)), _, refl, refl))
              | inl schedcontext ↦
                  rw
                    (take_cap-room e schedcontexts (taken notifications (taken tcbs w))
                      schedcontext)
                    (elim (room_or_IsEmpty vspaces w) [
                      | inr none_left ↦
                          rw
                            (take_cap-empty e vspaces
                              (taken schedcontexts (taken notifications (taken tcbs w))) none_left)
                            (inr (inr (inr (inr none_left)), _, refl, refl))
                      | inl vspace ↦
                          rw
                            (take_cap-room e vspaces
                              (taken schedcontexts (taken notifications (taken tcbs w))) vspace)
                            (inl (
                              tcb,
                              notification,
                              schedcontext,
                              vspace,
                              (Issues-wire pd cnode _ _ _ _).from _,
                            ))
                    ])
            ])
    ])
  ]
