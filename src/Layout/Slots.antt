-- ===== src/Layout/Slots.antt =====
-- The slots of a CSpace that the macros of sel4cp.h address, each with the index that its macro
-- computes, and the way back from an index to its slot.
use se_l4cp_poc.Prelude.{
  ℕ, zero, suc, ◌+◌, ◌-◌, ◌/◌, ◌%◌, ◌<◌, ◌^◌, ◌≡◌, refl, ◌∙◌, sym, ap, arith, ltb, ◌==◌,
  if◌then◌else◌,
}
use se_l4cp_poc.Layout.{
  Pool, tcbs, notifications, cnodes, schedcontexts, vspaces, page_upper_directories,
  page_directories, page_tables, pages, pool_num, pool_base, input_cap_idx, fault_ep_cap_idx,
  reply_cap_idx, asid_pool_cap_idx, sched_control_cap_idx, temp_cap, base_output_notification_cap,
  base_output_endpoint_cap, base_irq_cap, base_tcb_cap, base_sched_context_cap,
  base_unbadged_channel_cap, base_cnode_cap, base_vspace_cap, base_shared_memory_region_pages,
  pd_cap_bits,
}

-- The capabilities with one slot.
pub data Fixed : Type 0 where
  input fault_ep reply asid_pool sched_control temp : Fixed

-- The capabilities with a slot for each channel, interrupt or protection domain identifier.
pub data Family : Type 0 where
  output_notification output_endpoint irq tcb sched_context unbadged_channel cnode vspace : Family

pub data Slot : Type 0 where
  fixed : Fixed → Slot
  member : Family → ℕ → Slot
  pooled : Pool → ℕ → Slot
  shared_page : ℕ → Slot

abbrev pub fixed_index : Fixed → ℕ
fixed_index input = input_cap_idx
fixed_index fault_ep = fault_ep_cap_idx
fixed_index reply = reply_cap_idx
fixed_index asid_pool = asid_pool_cap_idx
fixed_index sched_control = sched_control_cap_idx
fixed_index temp = temp_cap

abbrev pub family_base : Family → ℕ
family_base output_notification = base_output_notification_cap
family_base output_endpoint = base_output_endpoint_cap
family_base irq = base_irq_cap
family_base tcb = base_tcb_cap
family_base sched_context = base_sched_context_cap
family_base unbadged_channel = base_unbadged_channel_cap
family_base cnode = base_cnode_cap
family_base vspace = base_vspace_cap

unfoldable pub index : Slot → ℕ
index (fixed f) = fixed_index f
index (member f id) = family_base f + id
index (pooled p i) = pool_base p + i
index (shared_page i) = base_shared_memory_region_pages + i

-- Identifiers fit in 64 slots, pool indices in their pool, and the shared pages in the CNode.
abbrev pub InLayout : Slot → Type 0
InLayout (fixed f) = Unit {0}
InLayout (member f id) = id < 64
InLayout (pooled p i) = i < pool_num p
InLayout (shared_page i) = base_shared_memory_region_pages + i < 2 ^ pd_cap_bits

-- The slot that an index belongs to.
fixed_at : ℕ → Slot
fixed_at n =
    if n == 1
    then fixed input
    else if n == 2
    then fixed fault_ep
    else if n == 4
    then fixed reply
    else if n == 5
    then fixed asid_pool
    else if n == 6
    then fixed sched_control
    else fixed temp

family_at : ℕ → Family
family_at zero = output_notification
family_at (suc zero) = output_endpoint
family_at (suc (suc zero)) = irq
family_at (suc (suc (suc zero))) = tcb
family_at (suc (suc (suc (suc zero)))) = sched_context
family_at (suc (suc (suc (suc (suc zero))))) = unbadged_channel
family_at (suc (suc (suc (suc (suc (suc zero)))))) = cnode
family_at (suc (suc (suc (suc (suc (suc (suc k))))))) = vspace

table_pool_at : ℕ → Slot
table_pool_at n =
    if ltb n 557
    then pooled page_upper_directories (n - 547)
    else if ltb n 577
    then pooled page_directories (n - 557)
    else if ltb n 607
    then pooled page_tables (n - 577)
    else if ltb n 757
    then pooled pages (n - 607)
    else shared_page (n - 757)

object_pool_at : ℕ → Slot
object_pool_at n =
    if ltb n 527
    then pooled tcbs (n - 522)
    else if ltb n 532
    then pooled notifications (n - 527)
    else if ltb n 537
    then pooled cnodes (n - 532)
    else if ltb n 542
    then pooled schedcontexts (n - 537)
    else pooled vspaces (n - 542)

slot_at : ℕ → Slot
unfolding fixed_at family_at table_pool_at object_pool_at
slot_at n =
    if ltb n 10
    then fixed_at n
    else if ltb n 522
    then member (family_at ((n - 10) / 64)) ((n - 10) % 64)
    else if ltb n 547
    then object_pool_at n
    else table_pool_at n

slot_at-fixed : (f : Fixed) → slot_at (index (fixed f)) ≡ fixed f
unfolding slot_at index
slot_at-fixed input = refl
slot_at-fixed fault_ep = refl
slot_at-fixed reply = refl
slot_at-fixed asid_pool = refl
slot_at-fixed sched_control = refl
slot_at-fixed temp = refl

slot_at-member : (f : Family) (id : ℕ) → id < 64 → slot_at (index (member f id)) ≡ member f id
unfolding slot_at index
slot_at-member output_notification id h = ground arith
slot_at-member _ id h = ground arith

slot_at-pooled : (p : Pool) (i : ℕ) → i < pool_num p → slot_at (index (pooled p i)) ≡ pooled p i
unfolding slot_at index
slot_at-pooled tcbs i h = ground arith
slot_at-pooled _ i h = ground arith

slot_at-shared_page : (i : ℕ) → slot_at (index (shared_page i)) ≡ shared_page i
unfolding slot_at index
slot_at-shared_page i = ground arith

slot_at-index : (s : Slot) → InLayout s → slot_at (index s) ≡ s
slot_at-index (fixed f) h = slot_at-fixed f
slot_at-index (member f id) h = slot_at-member f id h
slot_at-index (pooled p i) h = slot_at-pooled p i h
slot_at-index (shared_page i) h = slot_at-shared_page i

-- Two slots of the layout with the same index are the same slot: no two capabilities that the
-- macros of sel4cp.h address share a CSpace slot while identifiers stay below 64 and pool indices
-- within their pools.
pub index_injective : (s t : Slot) → InLayout s → InLayout t → index s ≡ index t → s ≡ t
index_injective s t hs ht e = sym (slot_at-index s hs) ∙ ap slot_at e ∙ slot_at-index t ht
