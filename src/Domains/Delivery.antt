-- ===== src/Domains/Delivery.antt =====
-- What README.md shows of memory_reader.elf: root writes to the shared memory region, which it has
-- granted to child, and child to memory_reader, which reads it.
use se_l4cp_poc.Prelude.{ℕ, ◌%◌, ◌<◌, ◌≡◌, ◌≢◌, ◌&&◌, ◌∷◌, Option, String, ◌==◌, if◌then◌else◌}
use se_l4cp_poc.Machine.State.{stored8, device_written, printed, Trace, Memory, World, Env}
use se_l4cp_poc.Machine.Run.{ok}
use se_l4cp_poc.Machine.Behaves.{Behaves}
use se_l4cp_poc.Load.Frames.{page_of}
use se_l4cp_poc.Rights.{set_up_memory_region}
use se_l4cp_poc.Rights.Regions.{Sharing, IsSharing, page_cap}
use se_l4cp_poc.Rights.Granted.{region, num_pages, Fits, Granted}
use se_l4cp_poc.Domains.Root
use se_l4cp_poc.Domains.MemoryReader

-- What is relied on of the processor: a byte goes to the frame that root's VSpace shows at its
-- address, and messages and device registers are not in these frames.
pub record IsStoring (frame_of : ℕ → ℕ) (contents : Trace → ℕ → ℕ → ℕ) : Type 0 where
  pub store_law :
      (addr value : ℕ) (t : Trace) (frame offset : ℕ)
      → contents (stored8 addr value ∷ t) frame offset ≡ (
          if (frame == frame_of (page_of addr)) && (offset == addr % 0x1000)
          then value
          else contents t frame offset)
  pub puts_law : (s : String) (t : Trace) → contents (printed s ∷ t) ≡ contents t
  pub device_law :
      (addr value : ℕ) (t : Trace) → contents (device_written addr value ∷ t) ≡ contents t

-- The first page of a region that has been granted.
module _ (e : Env) (sharing : Trace → Sharing) (m : Memory) (pd reader next : ℕ) (w : World)
    (r : ℕ × ℕ) (v : World) (granted : set_up_memory_region m pd reader next e w ≡ ok r v)
    (law : IsSharing e.current_pd_id sharing) (other : e.current_pd_id ≢ pd)
    (own_small : e.current_pd_id < 64) (pd_small : pd < 64) (fits : Fits m reader next)
    (some_page : 0 < num_pages m reader) where
  abbrev held_before : Option ℕ
  held_before = (sharing w.trace).holds e.current_pd_id (page_cap (region m reader) 0)
