-- ===== src/Machine/Bounds.antt =====
-- What every step keeps: the bounds of `alloc_state`, what it has taken already, the trace so far
-- and the variables that belong to other components.
use se_l4cp_poc.Prelude.{◌+◌, ◌≤◌, ◌<◌, ◌≡◌, refl, ap, List, [], ◌∷◌, ◌++◌, arith}
use se_l4cp_poc.Layout.{
  Pool, tcbs, notifications, cnodes, schedcontexts, vspaces, page_upper_directories,
  page_directories, page_tables, pages, pool_num,
}
use se_l4cp_poc.Machine.State.{AllocationState, idx, set_idx, Event, World}
use se_l4cp_poc.Machine.Evolves.{Evolves, here, says, takes, prepares}

-- No index is past the end of its pool.
pub record IsBounded (s : AllocationState) : Type 0 where
  pub tcb : s.tcb_idx ≤ pool_num tcbs
  pub notification : s.notification_idx ≤ pool_num notifications
  pub cnode : s.cnode_idx ≤ pool_num cnodes
  pub schedcontext : s.schedcontext_idx ≤ pool_num schedcontexts
  pub vspace : s.vspace_idx ≤ pool_num vspaces
  pub page_upper_directory : s.page_upper_directory_idx ≤ pool_num page_upper_directories
  pub page_directory : s.page_directory_idx ≤ pool_num page_directories
  pub page_table : s.page_table_idx ≤ pool_num page_tables
  pub page : s.page_idx ≤ pool_num pages

take-IsBounded :
    (p : Pool) (s : AllocationState)
    → IsBounded s
    → idx p s < pool_num p
    → IsBounded (set_idx p (idx p s + 1) s)
take-IsBounded tcbs s h room = ground arith
take-IsBounded _ s h room = ground arith

pub Evolves-IsBounded :
    {Q : Event → Type 0} {w u : World}
    → Evolves Q w u
    → IsBounded w.alloc_state
    → IsBounded u.alloc_state
Evolves-IsBounded here h = h
Evolves-IsBounded (says q ev _) h = Evolves-IsBounded q h
Evolves-IsBounded (takes p q room) h = take-IsBounded p _ (Evolves-IsBounded q h) room
Evolves-IsBounded (prepares q) h = ground (arith, Evolves-IsBounded q h)

-- Nothing that was taken is given back.
pub record AtMost (s t : AllocationState) : Type 0 where
  pub tcb : s.tcb_idx ≤ t.tcb_idx
  pub notification : s.notification_idx ≤ t.notification_idx
  pub cnode : s.cnode_idx ≤ t.cnode_idx
  pub schedcontext : s.schedcontext_idx ≤ t.schedcontext_idx
  pub vspace : s.vspace_idx ≤ t.vspace_idx
  pub page_upper_directory : s.page_upper_directory_idx ≤ t.page_upper_directory_idx
  pub page_directory : s.page_directory_idx ≤ t.page_directory_idx
  pub page_table : s.page_table_idx ≤ t.page_table_idx
  pub page : s.page_idx ≤ t.page_idx

take-AtMost : (p : Pool) (s t : AllocationState) → AtMost s t → AtMost s (set_idx p (idx p t + 1) t)
take-AtMost tcbs s t h = ground arith
take-AtMost _ s t h = ground arith

pub Evolves-AtMost :
    {Q : Event → Type 0} {w u : World} → Evolves Q w u → AtMost w.alloc_state u.alloc_state
Evolves-AtMost here = ground arith
Evolves-AtMost (says q ev _) = Evolves-AtMost q
Evolves-AtMost (takes p q room) = take-AtMost p _ _ (Evolves-AtMost q)
Evolves-AtMost (prepares q) = ground (arith, Evolves-AtMost q)

-- The variables of the ELF loader are as they were.
pub record SameElsewhere (w u : World) : Type 0 where
  pub loader : u.loader ≡ w.loader

pub Evolves-SameElsewhere : {Q : Event → Type 0} {w u : World} → Evolves Q w u → SameElsewhere w u
Evolves-SameElsewhere here = record { loader = refl }
Evolves-SameElsewhere (says q ev _) =
    let h = Evolves-SameElsewhere q in record { loader = h.loader }
Evolves-SameElsewhere (takes p q room) =
    let h = Evolves-SameElsewhere q in record { loader = h.loader }
Evolves-SameElsewhere (prepares q) = let h = Evolves-SameElsewhere q in record { loader = h.loader }

abbrev pub All {ℓ κ} : {A : Type ℓ} → (A → Type κ) → List A → Type κ
All P [] = Unit
All P (x ∷ xs) = P x × All P xs

-- The trace of `u` is that of `w` with more events, of which `Q` holds.
abbrev pub Extends : (Event → Type 0) → World → World → Type 0
Extends Q w u = (new : List Event) × (u.trace ≡ new ++ w.trace) × All Q new

pub Evolves-Extends : {Q : Event → Type 0} {w u : World} → Evolves Q w u → Extends Q w u
Evolves-Extends here = ([], refl, tt)
Evolves-Extends (says q ev h) =
    let (new, grown, all) = Evolves-Extends q in (ev ∷ new, ap (λ t. ev ∷ t) grown, (h, all))
Evolves-Extends (takes p q room) = let (new, grown, all) = Evolves-Extends q in (new, grown, all)
Evolves-Extends (prepares q) = let (new, grown, all) = Evolves-Extends q in (new, grown, all)
