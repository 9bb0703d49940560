-- ===== src/Create/Bounds.antt =====
-- `sel4cp_pd_create` as a sequence of steps on the state.
use se_l4cp_poc.Prelude.{ℕ}
use se_l4cp_poc.Machine.State.{Event, World, Env}
use se_l4cp_poc.Machine.Run.{final}
use se_l4cp_poc.Machine.Evolves.{Evolves}
use se_l4cp_poc.Machine.Bounds.{
  IsBounded, AtMost, SameElsewhere, Extends, Evolves-IsBounded, Evolves-AtMost,
  Evolves-SameElsewhere, Evolves-Extends,
}
use se_l4cp_poc.Load.Stores.{Goes-load_segments}
use se_l4cp_poc.Create.{pd_create}
use se_l4cp_poc.Create.Steps.{Goes-pd_create}

-- Every event.
abbrev pub Any : Event → Type 0
Any ev = Unit {0}

pub pd_create-Evolves :
    (e : Env) (w : World) (pd src : ℕ) → Evolves Any w (final (pd_create pd src e w))
pd_create-Evolves e w pd src =
    (Goes-pd_create {Q = Any} {e = e} (λ ev _. tt) (λ c answer. tt)
        (λ n m src pd_id_vaddr pd i. Goes-load_segments (λ ev _. tt) pd_id_vaddr pd n m src i) pd
        src).from
      w

-- If no index of `alloc_state` is past the end of its pool, then none is after `sel4cp_pd_create`,
-- whether that succeeds, fails half way or crashes, and whatever the kernel answers.
pub pd_create-IsBounded :
    (e : Env) (w : World) (pd src : ℕ)
    → IsBounded w.alloc_state
    → IsBounded (final (pd_create pd src e w)).alloc_state
pd_create-IsBounded e w pd src h = Evolves-IsBounded (pd_create-Evolves e w pd src) h

-- However `sel4cp_pd_create` ends, it has given no slot of a pool back, its events are added to the
-- trace in front of those that were there, and it has set no variable of the ELF loader.
pub pd_create_frame :
    (e : Env) (w : World) (pd src : ℕ)
    → AtMost w.alloc_state (final (pd_create pd src e w)).alloc_state
      × Extends Any w (final (pd_create pd src e w))
      × SameElsewhere w (final (pd_create pd src e w))
pd_create_frame e w pd src =
    let steps = pd_create-Evolves e w pd src in
    (Evolves-AtMost steps, Evolves-Extends steps, Evolves-SameElsewhere steps)
