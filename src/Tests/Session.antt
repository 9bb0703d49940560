-- ===== src/Tests/Session.antt =====
-- The channel between child and pong, and their session.
use se_l4cp_poc.Prelude.{
  ℕ, zero, suc, ◌+◌, ◌^◌, ◌<◌, ◌≡◌, refl, inl, inr, Bool, true, false, List, [], ◌∷◌, arith, subst,
  ltb, ltb→lt, ltb_false→le, ◌==◌, ==_iff, if◌then◌else◌, ◌&&◌, Bool-cases, none, some,
}
use se_l4cp_poc.Layout.{base_unbadged_channel_cap}
use se_l4cp_poc.Machine.State.{cnode_mint, invoked, printed, Trace}
use se_l4cp_poc.Machine.Run.{final, invoke, ◌>>=◌}
use se_l4cp_poc.Caps.{insist, mint_channel, set_up_channel}
use se_l4cp_poc.Api.{notify}
use se_l4cp_poc.Domains.Child
use se_l4cp_poc.Domains.Channels.{
  Route, badged, IsMinting, arrives, signal_on, Connects, set_up_channel-Connects,
}
use se_l4cp_poc.Domains.PingPong.{System, mail, prints, Started, started, Reach}
use se_l4cp_poc.Domains.PingPong.Session.{Phase, Finished, Started-Finishes}
use se_l4cp_poc.Tests.Elves.{demo_env, demo_world}

-- The channels of a badge with one bit.
abbrev find_bit : (n badge : ℕ) → List ℕ
find_bit zero badge = []
find_bit (suc k) badge = let rest = find_bit k badge in if 2 ^ k == badge then k ∷ [] else rest

abbrev channels_of : ℕ → List ℕ
channels_of badge = find_bit 64 badge

abbrev is_just : List ℕ → ℕ → Bool
is_just (x ∷ []) c = x == c
is_just _ c = false

is_just-equal : (xs : List ℕ) (c : ℕ) → is_just xs c ≡ true → xs ≡ c ∷ []
is_just-equal [] c h = ground arith
is_just-equal (x ∷ []) c h = let p : x ≡ c = (==_iff _ _).0 h in rw p refl
is_just-equal (x ∷ y ∷ ys) c h = ground arith

abbrev all_below : ℕ → (ℕ → Bool) → Bool
all_below zero p = true
all_below (suc n) p = p n && all_below n p

both : (a b : Bool) → (a && b) ≡ true → (a ≡ true) × (b ≡ true)
both true b h = (refl, h)
both false b h = ground arith

below-all : (n : ℕ) (p : ℕ → Bool) → all_below n p ≡ true → (c : ℕ) → c < n → p c ≡ true
below-all zero p h c lt = absurd (omega (arith, lt))
below-all (suc n) p h c lt = elim (Bool-cases (ltb c n)) [
  | inl less ↦ below-all n p (both (p n) (all_below n p) h).1 c (ltb→lt c n less)
  | inr last ↦
      let is : n ≡ c = omega (arith, lt, ltb_false→le c n last) in
      subst (λ x. p x ≡ true) is (both (p n) (all_below n p) h).0
]

single : (c : ℕ) → c < 64 → channels_of (2 ^ c) ≡ c ∷ []
single c lt =
    is_just-equal (channels_of (2 ^ c)) c
      (below-all 64 (λ c. is_just (channels_of (2 ^ c)) c) refl c lt)

-- A kernel that does what it documents, where each PD has its own unbadged notification.
abbrev routed : Trace → Route
routed [] pd slot = if slot == base_unbadged_channel_cap + pd then some (pd, 0) else none
routed (invoked (cnode_mint service index depth src_root src_index src_depth rights badge) zero ∷ t)
      pd slot =
    badged service index src_root src_index badge (routed t) pd slot
routed (_ ∷ t) pd slot = routed t pd slot

routed-IsMinting : IsMinting routed
routed-IsMinting service index depth src_root src_index src_depth rights badge t pd slot = refl

-- What root's kernel makes of the channel of the child's access right table.
set_up_channel-Connects_example :
    Connects channels_of routed 1 2 1 1 (set_up_channel 1 2 1 1 demo_env demo_world)
set_up_channel-Connects_example =
    set_up_channel-Connects channels_of single routed routed-IsMinting demo_env demo_world 1 2 1 1
      (omega arith) (omega arith) (omega arith) (omega arith) refl refl

abbrev connected : Route
connected = routed (final (set_up_channel 1 2 1 1 demo_env demo_world)).trace

connected-both :
    (arrives channels_of connected 1 (signal_on 1) ≡ some (2, 1 ∷ []))
    × (arrives channels_of connected 2 (signal_on 1) ≡ some (1, 1 ∷ []))
unfolding set_up_channel mint_channel insist invoke ◌>>=◌
connected-both = (refl, refl)

abbrev init_events : Trace
init_events =
    invoked (signal_on 1) 0
    ∷ printed "child: sending ping!\n"
    ∷ printed "child: initialized!\n"
    ∷ []

abbrev after_init : System
after_init = record {
  child = final (Child.init demo_env demo_world);
  pong = demo_world;
  under_way = mail channels_of connected 1 init_events;
  console = prints init_events;
}

init-Started : Started channels_of connected demo_env demo_env demo_world demo_world after_init
unfolding Child.init notify invoke ◌>>=◌
init-Started = started init_events refl refl

Started-Finishes_example :
    ((t : System) → Reach channels_of connected demo_env demo_env after_init t → Phase t)
    × ((t : System) × Reach channels_of connected demo_env demo_env after_init t × Finished t)
Started-Finishes_example =
    Started-Finishes channels_of connected demo_env demo_env connected-both.0 connected-both.1
      init-Started
