-- ===== src/Tests/Sharing.antt =====
-- The access right of dynamic_programs/child_access_rights.xml to test_region: three pages that may
-- be read, at 0x5000000. It is the region with number 0.
use se_l4cp_poc.Prelude.{
  ℕ, zero, suc, ◌≡◌, ◌≢◌, refl, [], ◌∷◌, none, some, ◌==◌, if◌then◌else◌, ◌&&◌, leb, ltb, ◌-◌, ◌+◌,
}
use se_l4cp_poc.Layout.{base_shared_memory_region_pages}
use se_l4cp_poc.Machine.State.{Call, cnode_copy, arm_page_map, invoked, Trace, Memory}
use se_l4cp_poc.Machine.Behaves.{Behaves}
use se_l4cp_poc.Paging.{Level, level_map, upper_directory, directory, table}
use se_l4cp_poc.Rights.Regions.{Sharing, mapped, copied, IsSharing}
use se_l4cp_poc.Rights.Granted.{Granted}

abbrev pub memory : Memory
memory a =
    if a == 111
    then 5
    else if a == 117
    then 0x30
    else if a == 124
    then 4
    else if a == 125
    then 1
    else 0

-- Root has the capabilities to the three pages of the region.
abbrev pub at_first : Sharing
at_first = record {
  shows = λ pd vaddr. none;
  holds = λ pd slot.
      if (pd == 0)
        && (leb base_shared_memory_region_pages slot
            && ltb slot (base_shared_memory_region_pages + 3))
      then some (slot - base_shared_memory_region_pages)
      else none;
}

abbrev pub answered : (own answer : ℕ) → Call → Sharing → Sharing
answered own zero (arm_page_map service vspace vaddr rights attr) s =
    mapped own service vspace vaddr rights attr s
answered own zero (cnode_copy service index depth src_root src_index src_depth rights) s =
    copied service index src_root src_index s
answered own zero _ s = s
answered own (suc err) c s = s

-- A kernel that does what it documents, for calls of PD `own`.
abbrev pub replayed : ℕ → Sharing → Trace → Sharing
replayed own first [] = first
replayed own first (invoked c answer ∷ t) = answered own answer c (replayed own first t)
replayed own first (_ ∷ t) = replayed own first t

abbrev pub sharing : Trace → Sharing
sharing = replayed 0 at_first

pub replayed-IsSharing : (own : ℕ) (first : Sharing) → IsSharing own (replayed own first)
replayed-IsSharing own first = record {
  map_law = λ service vspace vaddr rights attr t. refl;
  copy_law = λ service index depth src_root src_index src_depth rights t. refl;
  table_law = λ level service vspace vaddr attr answer t.
      by_level level service vspace vaddr attr answer (replayed own first t);
  refused_law = λ c answer t not. by_error c answer (replayed own first t) not;
  puts_law = λ s t. refl;
  puthex64_law = λ n t. refl;
}
  where
    by_level :
        (level : Level) (service vspace vaddr attr answer : ℕ) (s : Sharing)
        → answered own answer (level_map level service vspace vaddr attr) s ≡ s
    by_level upper_directory service vspace vaddr attr zero s = refl
    by_level directory service vspace vaddr attr zero s = refl
    by_level table service vspace vaddr attr zero s = refl
    by_level level service vspace vaddr attr (suc err) s = refl

    by_error : (c : Call) (answer : ℕ) (s : Sharing) → answer ≢ 0 → answered own answer c s ≡ s
    by_error c zero s not = absurd (not refl)
    by_error c (suc err) s not = refl
