-- ===== src/Tests/Moves.antt =====
-- Moves of pages with a kernel that does what it documents.
use se_l4cp_poc.Prelude.{ℕ, zero, suc, ◌≡◌, ◌≢◌, refl, [], ◌∷◌, arith}
use se_l4cp_poc.Layout.{pages}
use se_l4cp_poc.Machine.State.{cnode_move, invoked, Trace, initial_alloc_state}
use se_l4cp_poc.Create.{move_pool_caps, move_unused_caps}
use se_l4cp_poc.Create.Slots.{Slots, IsMoving, moved_slot}
use se_l4cp_poc.Create.Handover.{HandsOver, move_pool_caps-HandsOver}
use se_l4cp_poc.Create.Bestowed.{Bestows, move_unused_caps-Bestows}
use se_l4cp_poc.Machine.Bounds.{IsBounded}
use se_l4cp_poc.Tests.Elves.{demo_env, demo_world}

abbrev contents : Trace → Slots
contents [] root slot = slot
contents (invoked (cnode_move target d depth own s src_depth) zero ∷ t) root slot =
    moved_slot target d own s (contents t) root slot
contents (_ ∷ t) root slot = contents t root slot

contents-IsMoving : IsMoving contents
contents-IsMoving = record {
  accepted_move = λ target d depth own s src_depth t root slot. refl;
  refused_move =
      λ target d depth own s src_depth a t not. unchanged target d depth own s src_depth a t not;
}
  where
    unchanged :
        (target d depth own s src_depth a : ℕ) (t : Trace)
        → a ≢ 0
        → contents (invoked (cnode_move target d depth own s src_depth) a ∷ t) ≡ contents t
    unchanged target d depth own s src_depth zero t not = absurd (not refl)
    unchanged target d depth own s src_depth (suc a) t not = refl

move_pool_caps-HandsOver_example :
    HandsOver contents demo_env 532 pages 60 0 demo_world
      (move_pool_caps 532 pages 60 demo_env demo_world)
move_pool_caps-HandsOver_example =
    move_pool_caps-HandsOver contents contents-IsMoving demo_env 532 (λ p. omega (arith, p)) pages
      60 demo_world

initial-IsBounded : IsBounded initial_alloc_state
initial-IsBounded = ground arith

move_unused_caps-Bestows_example :
    Bestows contents demo_env 532 demo_world (move_unused_caps 532 demo_env demo_world)
move_unused_caps-Bestows_example =
    move_unused_caps-Bestows contents contents-IsMoving demo_env 532 (λ p. omega (arith, p))
      demo_world initial-IsBounded
