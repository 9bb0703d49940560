-- ===== src/Domains/Wiring.antt =====
-- Interrupt lines: who is notified of one, and who may acknowledge it, as the kernel documents the
-- calls of `sel4cp_internal_set_up_irq`.
use se_l4cp_poc.Prelude.{
  ℕ, ◌+◌, ◌-◌, ◌^◌, ◌<◌, ◌≡◌, ◌≢◌, refl, ap, subst, ◌∙◌, inl, inr, ◌&&◌, ◌∷◌, Option, none, some,
  arith, ◌==◌, ==_iff, ==_refl, ==_false, Bool-cases, lt→ltb, if◌then◌else◌,
}
use se_l4cp_poc.Prelude.Words.{u32}
use se_l4cp_poc.Kernel.{sel4_all_rights}
use se_l4cp_poc.Layout.{
  pd_cap_bits, temp_cap, base_irq_cap, base_cnode_cap, base_unbadged_channel_cap,
}
use se_l4cp_poc.Machine.State.{
  Call, cnode_delete, cnode_mint, cnode_move, irq_handler_set_notification, invoked, Trace, World,
  Env,
}
use se_l4cp_poc.Machine.Run.{
  shift_one, Run, ok, fail, crash, out_of_fuel, Prog, and_then, ask, invoke, ◌>>=◌,
}
use se_l4cp_poc.Machine.Issued.{said}
use se_l4cp_poc.Machine.Reasons.{Tells, Tells-puts, fails_rules}
use se_l4cp_poc.Caps.{insist, delete_temp_cap, set_up_irq}
use se_l4cp_poc.Domains.Channels.{Route, badged}

-- The capabilities to notify, by PD and slot; the line of a capability to an interrupt's handler;
-- and for a line whom an interrupt notifies, with which badge.
pub record Wiring : Type 0 where
  pub route : Route
  pub handler : (pd slot : ℕ) → Option ℕ
  pub bound : (line : ℕ) → Option (ℕ × ℕ)

-- A slot of a PD's CNode loses what it holds, or has what another one had.
abbrev pub emptied : {A : Type 0} → (service index : ℕ) → (ℕ → ℕ → Option A) → ℕ → ℕ → Option A
emptied service index f pd slot =
    if (index == slot) && (service == base_cnode_cap + pd) then none else f pd slot

abbrev pub moved :
    {A : Type 0} → (service index src_root src_index : ℕ) → (ℕ → ℕ → Option A) → ℕ → ℕ → Option A
moved service index src_root src_index f pd slot =
    if (index == slot) && (service == base_cnode_cap + pd)
    then f (src_root - base_cnode_cap) src_index
    else emptied src_root src_index f pd slot

-- The handler's line gets the notification.
abbrev pub assigned : Option ℕ → Option (ℕ × ℕ) → (ℕ → Option (ℕ × ℕ)) → ℕ → Option (ℕ × ℕ)
assigned none notification bound line = bound line
assigned (some l) notification bound line = if line == l then notification else bound line

-- What is relied on of the kernel, for calls of PD `own` that it accepts.
pub record IsWired (own : ℕ) (wiring : Trace → Wiring) : Type 0 where
  pub delete_law :
      (service index depth : ℕ) (t : Trace)
      → wiring (invoked (cnode_delete service index depth) 0 ∷ t) ≡ record (wiring t) {
        route = emptied service index (wiring t).route;
        handler = emptied service index (wiring t).handler;
      }
  pub mint_law :
      (service index depth src_root src_index src_depth rights badge : ℕ) (t : Trace)
      → wiring
          (invoked (cnode_mint service index depth src_root src_index src_depth rights badge) 0 ∷ t)
        ≡ record (wiring t) {
          route = badged service index src_root src_index badge (wiring t).route;
        }
  pub set_notification_law :
      (service notification : ℕ) (t : Trace)
      → wiring (invoked (irq_handler_set_notification service notification) 0 ∷ t)
        ≡ record (wiring t) {
          bound =
              assigned
                ((wiring t).handler own service)
                ((wiring t).route own notification)
                (wiring t).bound;
        }
  pub move_law :
      (service index depth src_root src_index src_depth : ℕ) (t : Trace)
      → wiring (invoked (cnode_move service index depth src_root src_index src_depth) 0 ∷ t)
        ≡ record (wiring t) {
          route = moved service index src_root src_index (wiring t).route;
          handler = moved service index src_root src_index (wiring t).handler;
        }

-- A run is that of accepted calls, or crashes with the error that the kernel answered.
abbrev pub Insists : Trace → Run (Unit {0}) → Type 0
Insists t (ok _ v) = v.trace ≡ t
Insists t (fail v) = ⊥
Insists t (crash err v) = err ≢ 0
Insists t (out_of_fuel v) = ⊥

record Demands (e : Env) (calls : Trace → Trace) (m : Prog (Unit {0})) : Type 0 where
  pub from : (w : World) → Insists (calls w.trace) (m e w)

-- One part after the other.
Insists-then :
    (e : Env) (t u : Trace) (r : Run (Unit {0})) (k : Prog (Unit {0}))
    → Insists t r
    → ((w : World) → w.trace ≡ t → Insists u (k e w))
    → Insists u (and_then r (λ _. k e))
Insists-then e t u (ok _ v) k h hk = hk v h
Insists-then e t u (fail v) k h hk = h
Insists-then e t u (crash err v) k h hk = h
Insists-then e t u (out_of_fuel v) k h hk = h

module _ {e : Env} where
  Demands-insist :
      (c : Call) (message : ℕ → Prog (Unit {0}))
      → ((err : ℕ) → Tells e (message err))
      → Demands e (λ t. invoked c 0 ∷ t) (insist c message)
  unfolding insist invoke ◌>>=◌
  Demands-insist c message tells = record {
    from = λ w. elim (Bool-cases (e.kernel w.trace c == 0)) [
      | inl accept ↦ let is : e.kernel w.trace c ≡ 0 = (==_iff _ _).0 accept in rw (accept, is) refl
      | inr refusal ↦
          let (v, is, same) = (tells (e.kernel w.trace c)).from (said c (e.kernel w.trace c) w) in
          rw (refusal, is) (λ p. ground (arith, refusal, p))
    ];
  }

  Demands-bind :
      (calls later : Trace → Trace) (m : Prog (Unit {0})) (k : Unit {0} → Prog (Unit {0}))
      → Demands e calls m
      → Demands e later (k tt)
      → Demands e (λ t. later (calls t)) (m >>= k)
  unfolding ◌>>=◌
  Demands-bind calls later m k dm dk = record {
    from = λ w.
        Insists-then e (calls w.trace) (later (calls w.trace)) (m e w) (k tt) (dm.from w)
          λ v is. subst (λ t. Insists (later t) (k tt e v)) is (dk.from v);
  }

  Demands-ask :
      {A : Type 0} (calls : Trace → Trace) (f : Env → A) (k : A → Prog (Unit {0}))
      → Demands e calls (k (f e))
      → Demands e calls (ask f >>= k)
  unfolding ◌>>=◌
  Demands-ask calls f k h = record { from = λ w. h.from w }

module _ (e : Env) (pd parent child : ℕ) where
  abbrev own_cnode : ℕ
  own_cnode = u32 (base_cnode_cap + e.current_pd_id)

  abbrev delete_call : Call
  delete_call = cnode_delete own_cnode temp_cap pd_cap_bits

  abbrev mint_call : Call
  mint_call =
      cnode_mint own_cnode temp_cap pd_cap_bits own_cnode (u32 (base_unbadged_channel_cap + pd))
        pd_cap_bits sel4_all_rights (shift_one e child)

  abbrev assign_call : Call
  assign_call = irq_handler_set_notification (base_irq_cap + parent) temp_cap

  abbrev move_call : Call
  move_call =
      cnode_move (u32 (base_cnode_cap + pd)) (base_irq_cap + child) pd_cap_bits own_cnode
        (base_irq_cap + parent) pd_cap_bits

  -- The calls, the last one first.
  abbrev irq_calls : Trace → Trace
  irq_calls t =
      invoked move_call 0 ∷ invoked assign_call 0 ∷ invoked mint_call 0 ∷ invoked delete_call 0 ∷ t

  Demands-delete_temp_cap : Demands e (λ t. invoked delete_call 0 ∷ t) delete_temp_cap
  unfolding delete_temp_cap
  Demands-delete_temp_cap = Demands-ask _ _ _ (Demands-insist _ _ λ err. search fails_rules depth 9)

  Demands-set_up_irq : Demands e irq_calls (set_up_irq pd parent child)
  unfolding set_up_irq
  Demands-set_up_irq = Demands-bind _ _ _ _ Demands-delete_temp_cap (
      Demands-ask _ _ _ (
        Demands-ask _ _ _ (
          Demands-bind _ _ _ _ (Demands-insist _ _ (λ err. Tells-puts _)) (
            Demands-bind _ _ _ _ (Demands-insist _ _ (λ err. Tells-puts _))
              (Demands-insist _ _ (λ err. Tells-puts _))))))

  -- A run that returns has passed the line on: its interrupts notify the PD, with the badge of
  -- its channel, it is the PD's to acknowledge, and the current PD's no more.
  abbrev pub PassesOn : (Trace → Wiring) → (line : ℕ) → Run (Unit {0}) → Type 0
  PassesOn wiring line (ok _ v) =
      ((wiring v.trace).bound line ≡ some (pd, 2 ^ child))
      × ((wiring v.trace).handler pd (base_irq_cap + child) ≡ some line)
      × ((wiring v.trace).handler e.current_pd_id (base_irq_cap + parent) ≡ none)
  PassesOn wiring line (fail v) = ⊥
  PassesOn wiring line (crash err v) = err ≢ 0
  PassesOn wiring line (out_of_fuel v) = ⊥

  module _ (wiring : Trace → Wiring) (wired : IsWired e.current_pd_id wiring) (line : ℕ)
      (own_small : e.current_pd_id < 64) (pd_small : pd < 64) (small : child < 31)
      (other : pd ≢ e.current_pd_id) (t : Trace)
      (owned : (wiring t).handler e.current_pd_id (base_irq_cap + parent) ≡ some line)
      (known : (wiring t).route e.current_pd_id (base_unbadged_channel_cap + pd)
        ≡ some (pd, 0)) where
    abbrev deleted : Trace
    deleted = invoked delete_call 0 ∷ t

    abbrev minted : Trace
    minted = invoked mint_call 0 ∷ deleted

    abbrev notified : Trace
    notified = invoked assign_call 0 ∷ minted

    own_exact : u32 (base_cnode_cap + e.current_pd_id) ≡ base_cnode_cap + e.current_pd_id
    own_exact = omega (arith, own_small)

    pd_exact : u32 (base_cnode_cap + pd) ≡ base_cnode_cap + pd
    pd_exact = omega (arith, pd_small)

    own_back : u32 (base_cnode_cap + e.current_pd_id) - base_cnode_cap ≡ e.current_pd_id
    own_back = omega (arith, own_small)

    owned_deleted : (wiring deleted).handler e.current_pd_id (base_irq_cap + parent) ≡ some line
    owned_deleted =
        ap (λ x. x.handler e.current_pd_id (base_irq_cap + parent)) (wired.delete_law _ _ _ t)
        ∙ rw (==_false temp_cap (base_irq_cap + parent) (λ p. omega (arith, p))) owned

    owned_minted : (wiring minted).handler e.current_pd_id (base_irq_cap + parent) ≡ some line
    owned_minted =
        ap (λ x. x.handler e.current_pd_id (base_irq_cap + parent))
          (wired.mint_law _ _ _ _ _ _ _ _ deleted)
        ∙ owned_deleted

    known_deleted :
        (wiring deleted).route e.current_pd_id (base_unbadged_channel_cap + pd) ≡ some (pd, 0)
    known_deleted =
        ap (λ x. x.route e.current_pd_id (base_unbadged_channel_cap + pd))
          (wired.delete_law _ _ _ t)
        ∙ rw (==_false temp_cap (base_unbadged_channel_cap + pd) (λ p. omega (arith, p))) known

    unbadged_exact : u32 (base_unbadged_channel_cap + pd) ≡ base_unbadged_channel_cap + pd
    unbadged_exact = omega (arith, pd_small)

    route_minted : (wiring minted).route e.current_pd_id temp_cap ≡ some (pd, 2 ^ child)
    route_minted =
        ap (λ x. x.route e.current_pd_id temp_cap) (wired.mint_law _ _ _ _ _ _ _ _ deleted)
        ∙ rw
            (
              own_back,
              unbadged_exact,
              known_deleted,
              own_exact,
              ==_refl (base_cnode_cap + e.current_pd_id),
              lt→ltb child 31 small,
            )
            refl

    owned_notified : (wiring notified).handler e.current_pd_id (base_irq_cap + parent) ≡ some line
    owned_notified =
        ap (λ x. x.handler e.current_pd_id (base_irq_cap + parent))
          (wired.set_notification_law _ _ minted)
        ∙ owned_minted

    bound_notified : (wiring notified).bound line ≡ some (pd, 2 ^ child)
    bound_notified =
        ap (λ x. x.bound line) (wired.set_notification_law _ _ minted)
        ∙ rw (owned_minted, ==_refl line) route_minted

    abbrev given : Trace
    given = invoked move_call 0 ∷ notified

    bound_given : (wiring given).bound line ≡ some (pd, 2 ^ child)
    bound_given = ap (λ x. x.bound line) (wired.move_law _ _ _ _ _ _ notified) ∙ bound_notified

    handler_given : (wiring given).handler pd (base_irq_cap + child) ≡ some line
    handler_given =
        ap (λ x. x.handler pd (base_irq_cap + child)) (wired.move_law _ _ _ _ _ _ notified)
        ∙ rw
            (
              own_back,
              owned_notified,
              pd_exact,
              ==_refl (base_cnode_cap + pd),
              ==_refl (base_irq_cap + child),
            )
            refl

    handler_gone : (wiring given).handler e.current_pd_id (base_irq_cap + parent) ≡ none
    handler_gone =
        ap (λ x. x.handler e.current_pd_id (base_irq_cap + parent))
          (wired.move_law _ _ _ _ _ _ notified)
        ∙ rw
            (
              own_exact,
              pd_exact,
              ==_false (base_cnode_cap + pd) (base_cnode_cap + e.current_pd_id)
                  (λ p. other (omega (arith, p))),
              ==_refl (base_cnode_cap + e.current_pd_id),
              ==_refl (base_irq_cap + parent),
            )
            (elim (Bool-cases (base_irq_cap + child == base_irq_cap + parent)) [
              | inl same ↦ rw same refl
              | inr differ ↦ rw differ refl
            ])

-- Where the kernel's accepted calls do what it documents, the current PD holds the handler of a
-- line at the parent's channel and the unbadged notification of another PD, and identifiers of PDs
-- are below 64 and the child's channel below 31: after sel4cp_internal_set_up_irq, interrupts of
-- the line notify that PD with its channel's badge, that PD holds the handler at its channel, and
-- the current PD holds it no more. It never returns an error value, and crashes only if the kernel
-- answers with an error.
pub set_up_irq-PassesOn :
    (wiring : Trace → Wiring) (e : Env) (w : World) (pd parent child line : ℕ)
    → IsWired e.current_pd_id wiring
    → e.current_pd_id < 64
    → pd < 64
    → child < 31
    → pd ≢ e.current_pd_id
    → (wiring w.trace).handler e.current_pd_id (base_irq_cap + parent) ≡ some line
    → (wiring w.trace).route e.current_pd_id (base_unbadged_channel_cap + pd) ≡ some (pd, 0)
    → PassesOn e pd parent child wiring line (set_up_irq pd parent child e w)
set_up_irq-PassesOn wiring e w pd parent child line wired own_small pd_small small other owned
      known =
    passed (set_up_irq pd parent child e w) ((Demands-set_up_irq e pd parent child).from w)
  where
    passed :
        (r : Run (Unit {0}))
        → Insists (irq_calls e pd parent child w.trace) r
        → PassesOn e pd parent child wiring line r
    passed (ok _ v) is = rw is (
      bound_given e pd parent child wiring wired line own_small pd_small small other w.trace owned
          known,
      handler_given e pd parent child wiring wired line own_small pd_small small other w.trace owned
          known,
      handler_gone e pd parent child wiring wired line own_small pd_small small other w.trace owned
          known,
    )
    passed (fail v) is = is
    passed (crash err v) is = is
    passed (out_of_fuel v) is = is
