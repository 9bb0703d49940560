-- ===== src/Rights/Parse.antt =====
-- The loop of `sel4cp_internal_set_up_access_rights` against the rights that the bytes of a table
-- stand for.
use se_l4cp_poc.Prelude.{
  ℕ, ◌+◌, ◌/◌, ◌^◌, ◌<◌, ◌≡◌, refl, subst, not, List, [], ◌∷◌, ◌++◌, arith, length, ◌==◌,
}
use se_l4cp_poc.Machine.State.{Memory}
use se_l4cp_poc.Machine.Run.{Prog, pure, ◌>>=◌, ◌>>◌}
use se_l4cp_poc.Machine.Laws.{monad_laws}
use se_l4cp_poc.Elf.{load8, load64}
use se_l4cp_poc.Caps.{set_priority, set_sched_flags, set_up_channel, set_up_irq}
use se_l4cp_poc.Paging.{parse_cap_rights, parse_vm_attributes}
use se_l4cp_poc.Rights.{
  share_pages, set_up_scheduling, set_up_channel_right, set_up_memory_region, set_up_irq_right,
  set_up_access_right, set_up_access_rights_from,
}
use se_l4cp_poc.Rights.Table.{
  AccessRight, scheduling, channel, memory_region, irq, protection_domain_control, bytes64, encode,
  encode_all, Fits, AllFit, Holds, Holds-append, load64-bytes64,
}

-- What an access right grants to `pd`; shared pages go to the child's slots from `next` on, and
-- the next free one is returned.
pub apply_right : (pd next : ℕ) → AccessRight → Prog ℕ
apply_right pd next (scheduling priority mcp budget period) = do
  set_priority pd priority mcp
  set_sched_flags pd budget period
  pure next
apply_right pd next (channel target_pd target_id own_id) = do
  set_up_channel pd target_pd own_id target_id
  pure next
apply_right pd next (memory_region id vaddr size perms cached) =
    share_pages (size / 0x1000) pd id vaddr (parse_cap_rights perms)
      (parse_vm_attributes perms (not (cached == 0))) next 0
apply_right pd next (irq parent child) = do set_up_irq pd parent child; pure next
apply_right pd next protection_domain_control = pure next

pub apply_rights : (pd next : ℕ) → List AccessRight → Prog (Unit {0})
apply_rights pd next [] = pure tt
apply_rights pd next (r ∷ rs) = do next' ← apply_right pd next r; apply_rights pd next' rs

load8-eq : (m : Memory) (a b : ℕ) → b < 2 ^ 8 → m a ≡ b → load8 m a ≡ b
unfolding load8
load8-eq m a b small h = ground arith

module _ (m : Memory) (pd reader next : ℕ) where
  -- The reader behind the right, and the next slot for shared pages.
  abbrev behind : AccessRight → ℕ → Prog (ℕ × ℕ)
  behind r n = pure (reader + length (encode r), n)

  abbrev Reads : AccessRight → Type 0
  Reads r = set_up_access_right m pd reader next ≡ (apply_right pd next r >>= behind r)

  read_channel :
      (target_pd target_id own_id : ℕ)
      → Fits (channel target_pd target_id own_id)
      → Holds m reader (encode (channel target_pd target_id own_id))
      → Reads (channel target_pd target_id own_id)
  unfolding set_up_access_right set_up_channel_right apply_right
  read_channel target_pd target_id own_id fits h =
      let type_id : load8 m reader ≡ 1 = load8-eq m reader 1 (omega arith) h.0 in
      let t : load8 m (reader + 1) ≡ target_pd = load8-eq m _ _ fits.0 h.1.0 in
      let i : load8 m (reader + 1 + 1) ≡ target_id = load8-eq m _ _ fits.1 h.1.1.0 in
      let third : reader + 1 + 2 ≡ reader + 1 + 1 + 1 = omega arith in
      let o : load8 m (reader + 1 + 1 + 1) ≡ own_id = load8-eq m _ _ fits.2 h.1.1.1.0 in
      let place : reader + 1 + 3 ≡ reader + 4 = omega arith in
      simp (type_id, t, i, third, o, place, monad_laws)

  read_irq :
      (parent child : ℕ)
      → Fits (irq parent child)
      → Holds m reader (encode (irq parent child))
      → Reads (irq parent child)
  unfolding set_up_access_right set_up_irq_right apply_right
  read_irq parent child fits h =
      let type_id : load8 m reader ≡ 3 = load8-eq m reader 3 (omega arith) h.0 in
      let p : load8 m (reader + 1) ≡ parent = load8-eq m _ _ fits.0 h.1.0 in
      let c : load8 m (reader + 1 + 1) ≡ child = load8-eq m _ _ fits.1 h.1.1.0 in
      let place : reader + 1 + 2 ≡ reader + 3 = omega arith in
      simp (type_id, p, c, place, monad_laws)

  read_control : Holds m reader (encode protection_domain_control) → Reads protection_domain_control
  unfolding set_up_access_right apply_right
  read_control h =
      let type_id : load8 m reader ≡ 4 = load8-eq m reader 4 (omega arith) h.0 in
      simp (type_id, monad_laws)

  read_scheduling :
      (priority mcp budget period : ℕ)
      → Fits (scheduling priority mcp budget period)
      → Holds m reader (encode (scheduling priority mcp budget period))
      → Reads (scheduling priority mcp budget period)
  unfolding set_up_access_right set_up_scheduling apply_right
  read_scheduling priority mcp budget period fits h =
      let type_id : load8 m reader ≡ 0 = load8-eq m reader 0 (omega arith) h.0 in
      let p : load8 m (reader + 1) ≡ priority = load8-eq m _ _ fits.0 h.1.0 in
      let c : load8 m (reader + 1 + 1) ≡ mcp = load8-eq m _ _ fits.1 h.1.1.0 in
      let tail : Holds m (reader + 1 + 2) (bytes64 budget ++ bytes64 period) =
        subst (λ a. Holds m a (bytes64 budget ++ bytes64 period)) (omega arith) h.1.1.1 in
      let words = Holds-append m (reader + 1 + 2) (bytes64 budget) (bytes64 period) tail in
      let b : load64 m (reader + 1 + 2) ≡ budget = load64-bytes64 m _ _ fits.2 words.0 in
      let tenth : reader + 1 + 10 ≡ reader + 1 + 2 + 8 = omega arith in
      let e : load64 m (reader + 1 + 2 + 8) ≡ period = load64-bytes64 m _ _ fits.3 words.1 in
      let place : reader + 1 + 18 ≡ reader + 19 = omega arith in
      simp (type_id, p, c, b, tenth, e, place, monad_laws)

  -- The fields of a memory region, from the byte behind its type on.
  region_words :
      (a id vaddr size perms cached : ℕ)
      → Fits (memory_region id vaddr size perms cached)
      → Holds m a (bytes64 id ++ (bytes64 vaddr ++ (bytes64 size ++ (perms ∷ cached ∷ []))))
      → (load64 m a ≡ id)
        × (load64 m (a + 8) ≡ vaddr)
        × (load64 m (a + 16) ≡ size)
        × (load8 m (a + 24) ≡ perms)
        × (load8 m (a + 25) ≡ cached)
  region_words a id vaddr size perms cached fits h =
      let flags : List ℕ = perms ∷ cached ∷ [] in
      let one = Holds-append m a (bytes64 id) (bytes64 vaddr ++ (bytes64 size ++ flags)) h in
      let two = Holds-append m (a + 8) (bytes64 vaddr) (bytes64 size ++ flags) one.1 in
      let three = Holds-append m (a + 8 + 8) (bytes64 size) flags two.1 in
      (
        load64-bytes64 m a id fits.0 one.0,
        load64-bytes64 m (a + 8) vaddr fits.1 two.0,
        subst (λ x. load64 m x ≡ size) (omega arith) (load64-bytes64 m _ size fits.2 three.0),
        subst (λ x. load8 m x ≡ perms) (omega arith) (load8-eq m _ perms fits.3 three.1.0),
        subst (λ x. load8 m x ≡ cached) (omega arith) (load8-eq m _ cached fits.4 three.1.1.0),
      )

  read_memory_region :
      (id vaddr size perms cached : ℕ)
      → Fits (memory_region id vaddr size perms cached)
      → Holds m reader (encode (memory_region id vaddr size perms cached))
      → Reads (memory_region id vaddr size perms cached)
  unfolding set_up_access_right set_up_memory_region apply_right
  read_memory_region id vaddr size perms cached fits h =
      let type_id : load8 m reader ≡ 2 = load8-eq m reader 2 (omega arith) h.0 in
      let (i, v, s, p, c) = region_words (reader + 1) id vaddr size perms cached fits h.1 in
      let place : reader + 1 + 26 ≡ reader + 27 = omega arith in
      simp (type_id, i, v, s, p, c, place)

  read_right : (r : AccessRight) → Fits r → Holds m reader (encode r) → Reads r
  read_right (scheduling priority mcp budget period) = read_scheduling priority mcp budget period
  read_right (channel target_pd target_id own_id) = read_channel target_pd target_id own_id
  read_right (memory_region id vaddr size perms cached) =
      read_memory_region id vaddr size perms cached
  read_right (irq parent child) = read_irq parent child
  read_right protection_domain_control = λ fits. read_control

-- Where the memory holds the bytes of a list of access rights, the loop over the table grants
-- these rights, in this order, and is in no other way sensitive to the bytes.
pub set_up_access_rights_from-apply_rights :
    (m : Memory) (pd reader next : ℕ) (rs : List AccessRight)
    → AllFit rs
    → Holds m reader (encode_all rs)
    → set_up_access_rights_from (length rs) m pd reader next ≡ apply_rights pd next rs
unfolding set_up_access_rights_from apply_rights
set_up_access_rights_from-apply_rights m pd reader next [] fits h = refl
set_up_access_rights_from-apply_rights m pd reader next (r ∷ rs) fits h =
    let (first, others) = Holds-append m reader (encode r) (encode_all rs) h in
    let ih : (next' : ℕ)
        → set_up_access_rights_from (length rs) m pd (reader + length (encode r)) next'
          ≡ apply_rights pd next' rs =
      λ next'.
        set_up_access_rights_from-apply_rights m pd (reader + length (encode r)) next' rs fits.1
          others in
    rw (read_right m pd reader next r fits.0 first) (simp (monad_laws, ih))
