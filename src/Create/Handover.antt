-- ===== src/Create/Handover.antt =====
-- The unused objects that a PD gets which may create PDs itself: where `sel4cp_internal_move_pool_caps`
-- leaves them.
use mathlib.Core.Path.{fun_ext}
use se_l4cp_poc.Prelude.{
  ℕ, zero, suc, ◌+◌, ◌≤◌, ◌<◌, ◌≡◌, ◌≢◌, refl, sym, subst, ◌⊎◌, inl, inr, ◌∷◌, arith, ◌==◌, ==_iff,
  Bool-cases, leb-false, le→leb,
}
use se_l4cp_poc.Prelude.Words.{u32}
use se_l4cp_poc.Layout.{Pool, tcbs, pool_num, pool_base, pd_cap_bits, base_cnode_cap}
use se_l4cp_poc.Machine.State.{
  Call, cnode_move, invoked, Trace, AllocationState, idx, set_idx, World, Env,
}
use se_l4cp_poc.Machine.Run.{Run, ok, fail, and_then, pure, try, invoke, increment, ◌>>=◌}
use se_l4cp_poc.Machine.Room.{HasRoom}
use se_l4cp_poc.Machine.Issued.{said}
use se_l4cp_poc.Create.{move_pool_cap, move_pool_caps_from, move_pool_caps}
use se_l4cp_poc.Create.Slots.{Slots, IsMoving, moved_slot, Filled, Filled-nothing, Filled-more}
use se_l4cp_poc.Create.Script.{taken, room_or_IsEmpty, exact_index}

-- The last event is a refused call.
abbrev pub WasRefused : World → Type 0
WasRefused v = (c : Call) × (a : ℕ) × (t : Trace) × (a ≢ 0) × (v.trace ≡ invoked c a ∷ t)

abbrev pub own_cnode : Env → ℕ
own_cnode e = u32 (base_cnode_cap + e.current_pd_id)

module _ (contents : Trace → Slots) (e : Env) (target : ℕ) (pool : Pool) where
  -- From the world `w` the next `n` objects of the pool are to be moved to the slots from the
  -- `i`-th on; `m` of them are, and the run ends as `r`.
  abbrev pub HandsOver : (n i : ℕ) → World → Run (Unit {0}) → Type 0
  HandsOver n i w r =
      (m : ℕ) × (v : World) × Filled target (own_cnode e) (pool_base pool + i)
        (pool_base pool + idx pool w.alloc_state) m (contents w.trace) (contents v.trace)
      × (idx pool v.alloc_state ≡ idx pool w.alloc_state + m)
      × (((r ≡ ok tt v) × (m ≡ n))
          ⊎ ((r ≡ fail v) × (m < n) × ((pool_num pool ≤ idx pool v.alloc_state) ⊎ WasRefused v)))

idx-set_idx : (pool : Pool) (n : ℕ) (s : AllocationState) → idx pool (set_idx pool n s) ≡ n
idx-set_idx tcbs n s = refl
idx-set_idx _ n s = refl

module _ (contents : Trace → Slots) (kernel_moves : IsMoving contents) (e : Env) (target : ℕ)
    (apart : target ≢ own_cnode e) (pool : Pool) where
  abbrev move_call : (i k : ℕ) → Call
  move_call i k =
      cnode_move target (pool_base pool + i) pd_cap_bits (own_cnode e) (pool_base pool + k)
        pd_cap_bits

  abbrev move_of : ℕ → World → Call
  move_of i w = move_call i (idx pool w.alloc_state)

  abbrev moved_world : ℕ → World → World
  moved_world i w = taken pool (said (move_of i w) 0 w)

  move_pool_cap-move_of :
      (i : ℕ) (w : World)
      → i ≤ idx pool w.alloc_state
      → HasRoom pool w
      → move_pool_cap target pool i e w ≡ and_then (try (move_of i w) e w) (λ a. increment pool e)
  unfolding move_pool_cap ◌>>=◌
  move_pool_cap-move_of i w behind room =
      rw
        (
          leb-false _ _ room,
          exact_index pool i (omega (arith, behind, room)),
          exact_index pool (idx pool w.alloc_state) room,
        )
        refl

  slots_moved :
      (i : ℕ) (w : World)
      → contents (moved_world i w).trace
        ≡ moved_slot target
            (pool_base pool + i)
            (own_cnode e)
            (pool_base pool + idx pool w.alloc_state)
            (contents w.trace)
  slots_moved i w =
      fun_ext λ root. fun_ext λ slot. kernel_moves.accepted_move _ _ _ _ _ _ _ root slot

  counted_on :
      (i : ℕ) (w : World) → idx pool (moved_world i w).alloc_state ≡ idx pool w.alloc_state + 1
  counted_on i w = idx-set_idx pool _ _

  Filled-move :
      (i m : ℕ) (w : World) (after : Slots)
      → Filled target
          (own_cnode e)
          (pool_base pool + (i + 1))
          (pool_base pool + (idx pool w.alloc_state + 1))
          m
          (contents (moved_world i w).trace)
          after
      → Filled target
          (own_cnode e)
          (pool_base pool + i)
          (pool_base pool + idx pool w.alloc_state)
          (suc m)
          (contents w.trace)
          after
  Filled-move i m w after rest =
      let to : pool_base pool + (i + 1) ≡ pool_base pool + i + 1 = omega arith in
      let source : pool_base pool + (idx pool w.alloc_state + 1)
          ≡ pool_base pool + idx pool w.alloc_state + 1 =
        omega arith in
      Filled-more target (own_cnode e) apart _ _ m (contents w.trace) after
        (rw (to, source, slots_moved i w) at rest)

  Filled-refused :
      (i k : ℕ) (w : World) (j l a : ℕ)
      → a ≢ 0
      → Filled target
          (own_cnode e)
          j
          l
          0
          (contents w.trace)
          (contents (said (move_call i k) a w).trace)
  Filled-refused i k w j l a not =
      subst (λ f. Filled target (own_cnode e) j l 0 (contents w.trace) f)
        (sym (kernel_moves.refused_move _ _ _ _ _ _ _ _ not))
        (Filled-nothing target (own_cnode e) apart _ _ _)

  HandsOver-first :
      (n i : ℕ) (w : World)
      → HasRoom pool w
      → e.kernel w.trace (move_of i w) ≡ 0
      → (r : Run (Unit {0})) → HandsOver contents e target pool n (i + 1) (moved_world i w) r
      → HandsOver contents e target pool (suc n) i w r
  HandsOver-first n i w room accepts r (m, v, filled, counted, ending) =
      let next = counted_on i w in
      (
        suc m,
        v,
        Filled-move i m w (contents v.trace) (rw next at filled),
        omega (arith, counted, next),
        elim ending [
          | inl (done, all) ↦ inl (done, omega (arith, all))
          | inr (failed, fewer, why) ↦ inr (failed, omega (arith, fewer), why)
        ],
      )

  HandsOver-next :
      (n i : ℕ) (w : World)
      → HasRoom pool w
      → HandsOver contents e target pool n
          (i + 1)
          (moved_world i w)
          (move_pool_caps_from n target pool (i + 1) e (moved_world i w))
      → HandsOver contents e target pool (suc n) i w (
          and_then
            (and_then (try (move_of i w) e w) (λ a. increment pool e))
            λ a. move_pool_caps_from n target pool (i + 1) e)
  unfolding try invoke increment ◌>>=◌
  HandsOver-next n i w room later = elim (Bool-cases (e.kernel w.trace (move_of i w) == 0)) [
    | inl accept ↦
        let is : e.kernel w.trace (move_of i w) ≡ 0 = (==_iff _ _).0 accept in
        rw (accept, is) (HandsOver-first n i w room is _ later)
    | inr refusal ↦
        let not : e.kernel w.trace (move_of i w) ≢ 0 = λ p. ground (arith, refusal, p) in
        rw refusal (
          0,
          said (move_of i w) (e.kernel w.trace (move_of i w)) w,
          Filled-refused i (idx pool w.alloc_state) w _ _ _ not,
          omega arith,
          inr (refl, omega arith, inr (move_of i w, _, w.trace, not, refl)),
        )
  ]

  move_pool_caps_from-HandsOver :
      (n i : ℕ) (w : World)
      → i ≤ idx pool w.alloc_state
      → HandsOver contents e target pool n i w (move_pool_caps_from n target pool i e w)
  unfolding move_pool_caps_from pure ◌>>=◌
  move_pool_caps_from-HandsOver zero i w behind =
      (0, w, Filled-nothing target (own_cnode e) apart _ _ _, omega arith, inl (refl, refl))
  move_pool_caps_from-HandsOver (suc n) i w behind = elim (room_or_IsEmpty e pool w) [
    | inr none_left ↦
        unfold move_pool_cap in
        rw (le→leb _ _ none_left) (
          0,
          w,
          Filled-nothing target (own_cnode e) apart _ _ _,
          omega arith,
          inr (refl, omega arith, inl none_left),
        )
    | inl room ↦ rw (move_pool_cap-move_of i w behind room) (
        HandsOver-next n i w room (
          move_pool_caps_from-HandsOver n (i + 1) (moved_world i w)
            (omega (arith, counted_on i w, behind))))
  ]

  -- Where the kernel moves capabilities as it documents, and the new PD's CNode is not the current
  -- PD's own: however `sel4cp_internal_move_pool_caps` returns, it has moved the next objects of the
  -- pool, in order, to the first slots of the pool in the new CNode, where that PD looks for its
  -- first ones, and touched no other slot of the two CNodes; `alloc_state` has counted exactly the
  -- objects that were moved. It succeeds if all were moved, and fails only if the pool has no object
  -- left or the last call was refused.
  pub move_pool_caps-HandsOver :
      (n : ℕ) (w : World)
      → HandsOver contents e target pool n 0 w (move_pool_caps target pool n e w)
  unfolding move_pool_caps
  move_pool_caps-HandsOver n w = move_pool_caps_from-HandsOver n 0 w (omega arith)
