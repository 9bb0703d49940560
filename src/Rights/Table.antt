-- ===== src/Rights/Table.antt =====
-- The access right table as a list of access rights, and the bytes that stand for it: one byte for
-- the type, then the fields, integers in little-endian order.
use se_l4cp_poc.Prelude.{
  ℕ, ◌+◌, ◌/◌, ◌%◌, ◌^◌, ◌<◌, ◌≡◌, subst, Bool, true, false, ◌||◌, List, [], ◌∷◌, ◌++◌, arith,
  length,
}
use se_l4cp_poc.Machine.State.{Memory}
use se_l4cp_poc.Elf.{load8, load16, load32, load64}

pub data AccessRight : Type 0 where
  scheduling : (priority mcp budget period : ℕ) → AccessRight
  channel : (target_pd target_id own_id : ℕ) → AccessRight
  memory_region : (id vaddr size perms cached : ℕ) → AccessRight
  irq : (parent_irq_channel_id child_irq_channel_id : ℕ) → AccessRight
  protection_domain_control : AccessRight

abbrev pub is_control : AccessRight → Bool
is_control protection_domain_control = true
is_control _ = false

abbrev pub any_control : List AccessRight → Bool
any_control [] = false
any_control (r ∷ rs) = is_control r || any_control rs

-- The eight bytes of an integer.
abbrev pub bytes64 : ℕ → List ℕ
bytes64 n =
    n % 2 ^ 8
    ∷ n / 2 ^ 8 % 2 ^ 8
    ∷ n / 2 ^ 16 % 2 ^ 8
    ∷ n / 2 ^ 24 % 2 ^ 8
    ∷ n / 2 ^ 32 % 2 ^ 8
    ∷ n / 2 ^ 40 % 2 ^ 8
    ∷ n / 2 ^ 48 % 2 ^ 8
    ∷ n / 2 ^ 56 % 2 ^ 8
    ∷ []

abbrev pub encode : AccessRight → List ℕ
encode (scheduling priority mcp budget period) =
    0 ∷ priority ∷ mcp ∷ (bytes64 budget ++ bytes64 period)
encode (channel target_pd target_id own_id) = 1 ∷ target_pd ∷ target_id ∷ own_id ∷ []
encode (memory_region id vaddr size perms cached) =
    2 ∷ (bytes64 id ++ (bytes64 vaddr ++ (bytes64 size ++ (perms ∷ cached ∷ []))))
encode (irq parent child) = 3 ∷ parent ∷ child ∷ []
encode protection_domain_control = 4 ∷ []

abbrev pub encode_all : List AccessRight → List ℕ
encode_all [] = []
encode_all (r ∷ rs) = encode r ++ encode_all rs

-- The fields fit in their types.
abbrev pub Fits : AccessRight → Type 0
Fits (scheduling priority mcp budget period) =
    (priority < 2 ^ 8) × (mcp < 2 ^ 8) × (budget < 2 ^ 64) × (period < 2 ^ 64)
Fits (channel target_pd target_id own_id) =
    (target_pd < 2 ^ 8) × (target_id < 2 ^ 8) × (own_id < 2 ^ 8)
Fits (memory_region id vaddr size perms cached) =
    (id < 2 ^ 64) × (vaddr < 2 ^ 64) × (size < 2 ^ 64) × (perms < 2 ^ 8) × (cached < 2 ^ 8)
Fits (irq parent child) = (parent < 2 ^ 8) × (child < 2 ^ 8)
Fits protection_domain_control = Unit {0}

abbrev pub AllFit : List AccessRight → Type 0
AllFit [] = Unit {0}
AllFit (r ∷ rs) = Fits r × AllFit rs

-- The memory holds these bytes from an address on.
abbrev pub Holds : Memory → ℕ → List ℕ → Type 0
Holds m a [] = Unit {0}
Holds m a (b ∷ bs) = (m a ≡ b) × Holds m (a + 1) bs

pub Holds-append :
    (m : Memory) (a : ℕ) (xs ys : List ℕ)
    → Holds m a (xs ++ ys)
    → Holds m a xs × Holds m (a + length xs) ys
Holds-append m a [] ys h = (tt, subst (λ x. Holds m x ys) (omega arith) h)
Holds-append m a (x ∷ xs) ys h =
    let (left, right) = Holds-append m (a + 1) xs ys h.1 in
    ((h.0, left), subst (λ x. Holds m x ys) (omega arith) right)

-- Eight bytes read back as the integer that they stand for.
pub load64-bytes64 : (m : Memory) (a n : ℕ) → n < 2 ^ 64 → Holds m a (bytes64 n) → load64 m a ≡ n
unfolding load64 load32 load16 load8
load64-bytes64 m a n small h = ground arith
