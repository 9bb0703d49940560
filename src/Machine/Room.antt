-- ===== src/Machine/Room.antt =====
-- The guard before a slot is taken: behind it the pool has room until the slot is taken.
use se_l4cp_poc.Prelude.{
  ℕ, ◌<◌, ◌∷◌, Bool, true, false, inl, inr, leb, leb_false→lt, Bool-cases, if◌then◌else◌, ◌==◌,
}
use se_l4cp_poc.Layout.{Pool, pool_num}
use se_l4cp_poc.Machine.State.{Event, Call, invoked, World, Env, idx}
use se_l4cp_poc.Machine.Run.{Prog, final, ask, increment, ◌>>=◌, ◌>>◌, invoke, try, get_idx}
use se_l4cp_poc.Machine.Evolves.{Evolves, here, says, takes, Evolves-trans, Goes, IsQuiet, Admits}

abbrev pub HasRoom : Pool → World → Type 0
HasRoom pool w = idx pool w.alloc_state < pool_num pool

-- What `m` does from a world in which the pool has room.
pub record GoesWithRoom {A : Type 0} (Q : Event → Type 0) (e : Env) (pool : Pool) (m : Prog A)
    : Type 0 where
  pub from : (w : World) → HasRoom pool w → Evolves Q w (final (m e w))

module _ {Q : Event → Type 0} {e : Env} {pool : Pool} where
  pub room-Goes : {A : Type 0} (m : Prog A) → Goes Q e m → GoesWithRoom Q e pool m
  room-Goes m g = record { from = λ w room. g.from w }

  pub room-increment : GoesWithRoom Q e pool (increment pool)
  unfolding increment
  room-increment = record { from = λ w room. takes pool here room }

module _ {Q : Event → Type 0} {e : Env} {pool : Pool} {B : Type 0} where
  -- `if (idx >= POOL_NUM) ... else ...`
  pub Goes-guard :
      (m : Prog B) (n : ℕ → Prog B)
      → Goes Q e m
      → ((i : ℕ) → GoesWithRoom Q e pool (n i))
      → Goes Q e (get_idx pool >>= λ i. if leb (pool_num pool) i then m else n i)
  unfolding ◌>>=◌
  Goes-guard m n gm gn = record { from = λ w. branch w }
    where
      branch :
          (w : World)
          → Evolves Q w (
              final (
                (if leb (pool_num pool) (idx pool w.alloc_state)
                    then m
                    else n (idx pool w.alloc_state))
                  e w))
      branch w = elim (Bool-cases (leb (pool_num pool) (idx pool w.alloc_state))) [
        | inl full ↦ rw full (gm.from w)
        | inr room ↦ rw room ((gn _).from w (leb_false→lt _ _ room))
      ]

  pub room-if :
      (b : Bool) (m n : Prog B)
      → GoesWithRoom Q e pool m
      → GoesWithRoom Q e pool n
      → GoesWithRoom Q e pool (if b then m else n)
  room-if true m n gm gn = gm
  room-if false m n gm gn = gn

  pub room-then :
      (k : Unit {0} → Prog B) → Goes Q e (k tt) → GoesWithRoom Q e pool (increment pool >>= k)
  unfolding ◌>>=◌
  room-then k g = record { from = λ w room. Evolves-trans (takes pool here room) (g.from _) }

  pub room-ask :
      {A : Type 0} (f : Env → A) (k : A → Prog B)
      → ((a : A) → GoesWithRoom Q e pool (k a))
      → GoesWithRoom Q e pool (ask f >>= k)
  unfolding ◌>>=◌
  room-ask f k g = record { from = λ w room. (g (f e)).from w room }

  module _ (plain : Admits Q) where
    pub room-invoke :
        (c : Call) (k : ℕ → Prog B)
        → IsQuiet c
        → ((answer : ℕ) → GoesWithRoom Q e pool (k answer))
        → GoesWithRoom Q e pool (invoke c >>= k)
    unfolding ◌>>=◌ invoke
    room-invoke c k is_quiet g = record {
      from = λ w room.
          Evolves-trans (says here (invoked c _) (plain (invoked c _) is_quiet))
            ((g _).from _ room);
    }

    pub room-try :
        (c : Call) (k : Prog B)
        → IsQuiet c
        → GoesWithRoom Q e pool k
        → GoesWithRoom Q e pool (try c >> k)
    unfolding ◌>>=◌ invoke try
    room-try c k is_quiet g = record {
      from = λ w room.
          let said : Evolves Q w (record w { trace = invoked c (e.kernel w.trace c) ∷ w.trace }) =
            says here (invoked c _) (plain (invoked c _) is_quiet) in
          elim (Bool-cases (e.kernel w.trace c == 0)) [
            | inl accepted ↦ rw accepted (Evolves-trans said (g.from _ room))
            | inr refused ↦ rw refused said
          ];
    }

pub ruleset room_rules =
    (Goes-guard, room-increment, room-then, room-ask, room-if, room-invoke, room-try, room-Goes)
