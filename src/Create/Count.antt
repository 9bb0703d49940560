-- ===== src/Create/Count.antt =====
-- How many protection domains can be created.
use se_l4cp_poc.Prelude.{
  ℕ, suc, ◌+◌, ◌≤◌, ◌≡◌, inl, inr, List, [], ◌∷◌, Bool, true, false, arith, leb, ◌==◌, Bool-cases,
  if◌then◌else◌,
}
use se_l4cp_poc.Prelude.Words.{u64}
use se_l4cp_poc.Layout.{cnodes, pool_num, pool_base}
use se_l4cp_poc.Machine.State.{Memory, World, Env, set_idx}
use se_l4cp_poc.Machine.Run.{Run, ok, fail, crash, out_of_fuel, final, Prog, ◌>>=◌, ◌>>◌}
use se_l4cp_poc.Machine.Evolves.{Goes, Admits, Goes-bind}
use se_l4cp_poc.Machine.Bounds.{IsBounded, Evolves-AtMost}
use se_l4cp_poc.Load.{load_segments, pd_load_elf}
use se_l4cp_poc.Load.Steps.{Goes-pd_load_elf}
use se_l4cp_poc.Load.Stores.{Goes-load_segments}
use se_l4cp_poc.Create.{take_cap, build_pd, pd_create, move_if_controlling}
use se_l4cp_poc.Create.Steps.{Goes-move_if_controlling, Goes-build_pd}
use se_l4cp_poc.Create.Bounds.{Any, pd_create-IsBounded, pd_create_frame}

abbrev succeeds : {A : Type 0} → Run A → Bool
succeeds (ok a w) = true
succeeds _ = false

-- Creations one after the other, and how many of them succeed.
pub create_all : List (ℕ × ℕ) → Env → World → ℕ × World
create_all [] e w = (0, w)
create_all ((pd, src) ∷ rest) e w =
    let r = pd_create pd src e w in
    let (n, u) = create_all rest e (final r) in ((if succeeds r then suc n else n), u)

-- `sel4cp_pd_create` behind its first allocation.
abbrev rest_of_create : (pd src cnode_cap : ℕ) → Prog (Unit {0})
rest_of_create pd src cnode_cap = do
  move_if_controlling cnode_cap src
  build_pd pd cnode_cap
  pd_load_elf src pd

Goes-rest_of_create :
    (e : Env) (pd src cnode_cap : ℕ) → Goes Any e (rest_of_create pd src cnode_cap)
Goes-rest_of_create e pd src cnode_cap =
    Goes-bind _ _ (Goes-move_if_controlling plain cnode_cap src) λ _.
      Goes-bind _ _ (Goes-build_pd plain pd cnode_cap)
        λ _. Goes-pd_load_elf plain (λ c answer. tt) segments src pd
  where
    plain : Admits Any
    plain ev _ = tt

    segments :
        (n : ℕ) (m : Memory) (src pd_id_vaddr pd i : ℕ)
        → Goes Any e (load_segments n m src pd_id_vaddr pd i)
    segments n m src pd_id_vaddr pd i = Goes-load_segments (λ ev _. tt) pd_id_vaddr pd n m src i

-- A run that returns has taken a CNode, if it leaves more of them taken.
abbrev TakesCnode : {A : Type 0} → World → Run A → Type 0
TakesCnode w (ok a u) = w.alloc_state.cnode_idx + 1 ≤ u.alloc_state.cnode_idx
TakesCnode w _ = Unit {0}

TakesCnode-of_final :
    {A : Type 0} (w : World) (r : Run A)
    → w.alloc_state.cnode_idx + 1 ≤ (final r).alloc_state.cnode_idx
    → TakesCnode w r
TakesCnode-of_final w (ok a u) h = h
TakesCnode-of_final w (fail u) h = tt
TakesCnode-of_final w (crash n u) h = tt
TakesCnode-of_final w (out_of_fuel u) h = tt

take_cap-full :
    {B : Type 0} (e : Env) (w : World) (k : ℕ → Prog B)
    → leb (pool_num cnodes) w.alloc_state.cnode_idx ≡ true
    → (take_cap cnodes >>= k) e w ≡ fail w
unfolding take_cap ◌>>=◌
take_cap-full e w k full = rw full

take_cap-room :
    {B : Type 0} (e : Env) (w : World) (k : ℕ → Prog B)
    → leb (pool_num cnodes) w.alloc_state.cnode_idx ≡ false
    → (take_cap cnodes >>= k) e w
      ≡ k
          (u64 (pool_base cnodes + w.alloc_state.cnode_idx))
          e
          (record w { alloc_state = set_idx cnodes (w.alloc_state.cnode_idx + 1) w.alloc_state })
unfolding take_cap ◌>>=◌
take_cap-room e w k room = rw room

-- A creation that succeeds has taken a CNode.
pd_create-TakesCnode : (e : Env) (w : World) (pd src : ℕ) → TakesCnode w (pd_create pd src e w)
unfolding pd_create
pd_create-TakesCnode e w pd src = elim (Bool-cases (src == 0)) [
  | inl null ↦ rw null (unfold ◌>>=◌ in tt)
  | inr given ↦ rw given (elim (Bool-cases (leb (pool_num cnodes) w.alloc_state.cnode_idx)) [
    | inl full ↦ rw (take_cap-full e w (rest_of_create pd src) full) tt
    | inr room ↦
        rw (take_cap-room e w (rest_of_create pd src) room)
          (TakesCnode-of_final w _ (Evolves-AtMost ((Goes-rest_of_create e pd src _).from _)).cnode)
  ])
]

counted :
    {A : Type 0} (w : World) (r : Run A) (n bound : ℕ)
    → TakesCnode w r
    → w.alloc_state.cnode_idx ≤ (final r).alloc_state.cnode_idx
    → n + (final r).alloc_state.cnode_idx ≤ bound
    → (if succeeds r then suc n else n) + w.alloc_state.cnode_idx ≤ bound
counted w (ok a u) n bound takes grows h = omega arith
counted w (fail u) n bound takes grows h = omega arith
counted w (crash k u) n bound takes grows h = omega arith
counted w (out_of_fuel u) n bound takes grows h = omega arith

-- Of any sequence of creations, whatever the files and the kernel's answers, as many succeed as
-- CNodes are left in the pool, at most: five from the initial state.
pub create_all-le-pool_num :
    (creations : List (ℕ × ℕ)) (e : Env) (w : World)
    → IsBounded w.alloc_state
    → (create_all creations e w).0 + w.alloc_state.cnode_idx ≤ pool_num cnodes
unfolding create_all
create_all-le-pool_num [] e w h = omega (arith, h.cnode)
create_all-le-pool_num ((pd, src) ∷ rest) e w h =
    counted w (pd_create pd src e w) _ (pool_num cnodes) (pd_create-TakesCnode e w pd src)
      ((pd_create_frame e w pd src).0.cnode)
      (create_all-le-pool_num rest e _ (pd_create-IsBounded e w pd src h))
