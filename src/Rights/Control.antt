-- ===== src/Rights/Control.antt =====
-- `sel4cp_internal_has_protection_domain_control_access_right` on the bytes of a table.
use se_l4cp_poc.Prelude.{
  ℕ, ◌+◌, ◌-◌, ◌/◌, ◌%◌, ◌^◌, ◌<◌, ◌≡◌, refl, ap, subst, List, [], ◌∷◌, arith, length,
}
use se_l4cp_poc.Machine.State.{Memory, Env, World}
use se_l4cp_poc.Machine.Run.{ok, pure, ◌>>=◌}
use se_l4cp_poc.Elf.{load8, load16, load32, load64}
use se_l4cp_poc.Rights.{
  access_right_table, has_control_case, has_control_from,
  has_protection_domain_control_access_right,
}
use se_l4cp_poc.Rights.Table.{
  bytes64, load64-bytes64, AccessRight, scheduling, channel, memory_region, irq,
  protection_domain_control, any_control, encode, encode_all, Holds, Holds-append,
}

abbrev type_of : AccessRight → ℕ
type_of (scheduling priority mcp budget period) = 0
type_of (channel target_pd target_id own_id) = 1
type_of (memory_region id vaddr size perms cached) = 2
type_of (irq parent child) = 3
type_of protection_domain_control = 4

type_byte : (m : Memory) (a : ℕ) (r : AccessRight) → Holds m a (encode r) → load8 m a ≡ type_of r
unfolding load8
type_byte m a (scheduling priority mcp budget period) h = ground arith
type_byte m a (channel target_pd target_id own_id) h = ground arith
type_byte m a (memory_region id vaddr size perms cached) h = ground arith
type_byte m a (irq parent child) h = ground arith
type_byte m a protection_domain_control h = ground arith

-- The loop over the table.
has_control_from-any_control :
    (m : Memory) (reader : ℕ) (rs : List AccessRight)
    → Holds m reader (encode_all rs)
    → has_control_from (length rs) m reader ≡ pure (any_control rs)
unfolding has_control_from has_control_case
has_control_from-any_control m reader [] h = refl
has_control_from-any_control m reader (scheduling priority mcp budget period ∷ rs) h =
    let place : reader + 1 + 18 ≡ reader + 19 = omega arith in
    let here =
      Holds-append m reader (encode (scheduling priority mcp budget period)) (encode_all rs) h in
    rw (type_byte m reader (scheduling priority mcp budget period) here.0, place)
      (has_control_from-any_control m (reader + 19) rs here.1)
has_control_from-any_control m reader (channel target_pd target_id own_id ∷ rs) h =
    let place : reader + 1 + 3 ≡ reader + 4 = omega arith in
    let here =
      Holds-append m reader (encode (channel target_pd target_id own_id)) (encode_all rs) h in
    rw (type_byte m reader (channel target_pd target_id own_id) here.0, place)
      (has_control_from-any_control m (reader + 4) rs here.1)
has_control_from-any_control m reader (memory_region id vaddr size perms cached ∷ rs) h =
    let place : reader + 1 + 26 ≡ reader + 27 = omega arith in
    let here =
      Holds-append m reader (encode (memory_region id vaddr size perms cached)) (encode_all rs) h in
    rw (type_byte m reader (memory_region id vaddr size perms cached) here.0, place)
      (has_control_from-any_control m (reader + 27) rs here.1)
has_control_from-any_control m reader (irq parent child ∷ rs) h =
    let place : reader + 1 + 2 ≡ reader + 3 = omega arith in
    let here = Holds-append m reader (encode (irq parent child)) (encode_all rs) h in
    rw (type_byte m reader (irq parent child) here.0, place)
      (has_control_from-any_control m (reader + 3) rs here.1)
has_control_from-any_control m reader (protection_domain_control ∷ rs) h =
    let here = Holds-append m reader (encode protection_domain_control) (encode_all rs) h in
    rw (type_byte m reader protection_domain_control here.0)

-- The seven bytes of an offset.
abbrev pub bytes56 : ℕ → List ℕ
bytes56 n =
    n % 2 ^ 8
    ∷ n / 2 ^ 8 % 2 ^ 8
    ∷ n / 2 ^ 16 % 2 ^ 8
    ∷ n / 2 ^ 24 % 2 ^ 8
    ∷ n / 2 ^ 32 % 2 ^ 8
    ∷ n / 2 ^ 40 % 2 ^ 8
    ∷ n / 2 ^ 48 % 2 ^ 8
    ∷ []

-- An ELF file at `elf_file` that has been patched with a table.
abbrev pub IsPatched : Memory → (elf_file offset : ℕ) → List AccessRight → Type 0
IsPatched m elf_file offset rs =
    (offset < 2 ^ 56)
    × (length rs < 2 ^ 64)
    × Holds m (elf_file + 9) (bytes56 offset)
    × Holds m (elf_file + offset) (bytes64 (length rs))
    × Holds m (elf_file + offset + 8) (encode_all rs)

offset_read :
    (m : Memory) (a offset : ℕ)
    → offset < 2 ^ 56
    → Holds m (a + 1) (bytes56 offset)
    → load64 m a / 2 ^ 8 ≡ offset
unfolding load64 load32 load16 load8
offset_read m a offset small h = ground arith

table_found :
    (m : Memory) (elf_file offset : ℕ)
    → offset < 2 ^ 56
    → Holds m (elf_file + 9) (bytes56 offset)
    → access_right_table m elf_file ≡ elf_file + offset
unfolding access_right_table
table_found m elf_file offset small h =
    ap (λ n. elf_file + n)
      (offset_read m (elf_file + 9 - 1) offset small
        (subst (λ a. Holds m a (bytes56 offset)) (omega arith) h))

-- Where an ELF file has, in the seven bytes behind the first nine of its identification, the
-- offset of an access right table, and the memory holds there the number of a list of access
-- rights and their encoding, sel4cp_internal_has_protection_domain_control_access_right answers
-- whether protection_domain_control is one of them, and prints nothing and changes nothing.
pub has_protection_domain_control_access_right-any_control :
    (e : Env) (w : World) (elf_file offset : ℕ) (rs : List AccessRight)
    → IsPatched e.memory elf_file offset rs
    → has_protection_domain_control_access_right elf_file e w ≡ ok (any_control rs) w
unfolding has_protection_domain_control_access_right pure ◌>>=◌
has_protection_domain_control_access_right-any_control e w elf_file offset rs
      (small, few, at_offset, at_count, at_rights) =
    rw
      (
        table_found e.memory elf_file offset small at_offset,
        load64-bytes64 e.memory (elf_file + offset) (length rs) few at_count,
        has_control_from-any_control e.memory (elf_file + offset + 8) rs at_rights,
      )
      refl
