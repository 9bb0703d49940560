-- ===== src/Rights/Granted.antt =====
-- An access right to a memory region, as `sel4cp_internal_set_up_access_rights` grants it.
use se_l4cp_poc.Prelude.{ℕ, ◌+◌, ◌*◌, ◌/◌, ◌^◌, ◌≤◌, ◌<◌, ◌⊎◌, not, ◌==◌}
use se_l4cp_poc.Layout.{base_shared_memory_region_pages}
use se_l4cp_poc.Machine.State.{Trace, Memory, World, Env}
use se_l4cp_poc.Machine.Behaves.{Behaves}
use se_l4cp_poc.Paging.{parse_cap_rights, parse_vm_attributes}
use se_l4cp_poc.Elf.{load8, load64}
use se_l4cp_poc.Rights.Regions.{Sharing, Shared}

-- The fields of an access right to a memory region, behind its type identifier.
module _ (m : Memory) (reader : ℕ) where
  abbrev pub region : ℕ
  region = load64 m reader

  abbrev pub address : ℕ
  address = load64 m (reader + 8)

  abbrev pub num_pages : ℕ
  num_pages = load64 m (reader + 16) / 0x1000

  abbrev pub page_rights : ℕ
  page_rights = parse_cap_rights (load8 m (reader + 24))

  abbrev pub page_attr : ℕ
  page_attr = parse_vm_attributes (load8 m (reader + 24)) (not (load8 m (reader + 25) == 0))

-- Its slots and addresses do not wrap, with capabilities from slot `next` on.
abbrev pub Fits : Memory → (reader next : ℕ) → Type 0
Fits m reader next =
    (base_shared_memory_region_pages + region m reader + num_pages m reader < 2 ^ 64)
    × (address m reader + num_pages m reader * 0x1000 ≤ 2 ^ 64)
    × (next + num_pages m reader < 2 ^ 64)

module _ (e : Env) (sharing : Trace → Sharing) (m : Memory) (pd reader next : ℕ) where
  -- The access right is read, and so many pages of its region are shared.
  abbrev pub Granted : World → (n k : ℕ) → World → Type 0
  Granted w n k v =
      Shared e.current_pd_id pd (region m reader) (address m reader) next (page_rights m reader)
        (page_attr m reader) (sharing w.trace) n k (sharing v.trace)

  -- So many of them that not all are, the last one perhaps without its capability.
  abbrev pub Halfway : World → World → Type 0
  Halfway w v = (k : ℕ) × (k < (num_pages m reader)) × (Granted w k k v ⊎ Granted w (k + 1) k v)
