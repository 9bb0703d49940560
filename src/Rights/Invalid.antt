-- ===== src/Rights/Invalid.antt =====
-- Access right tables with an identifier that is no type, and how far each case moves the reader.
use se_l4cp_poc.Prelude.{
  ℕ, zero, suc, ◌+◌, ◌≡◌, ◌≢◌, refl, Option, none, some, arith, ==_false, ◌==◌, if◌then◌else◌,
}
use se_l4cp_poc.Layout.{protection_domain_control_id}
use se_l4cp_poc.Machine.State.{Memory, Env}
use se_l4cp_poc.Machine.Yields.{Yields, Yields-bind, Yields-pure}
use se_l4cp_poc.Elf.{load8, load64}
use se_l4cp_poc.Rights.{
  access_right_table, set_up_scheduling, set_up_channel_right, set_up_memory_region,
  set_up_irq_right, skipped_bytes,
}

-- The bytes behind the type identifier of an access right.
abbrev pub right_size : ℕ → Option ℕ
right_size type_id =
    if type_id == protection_domain_control_id then some 0 else skipped_bytes type_id

abbrev pub EitherWay : Option ℕ → (ℕ → Type 0) → Type 0
EitherWay none P = Unit
EitherWay (some k) P = P k

-- One of `n` access rights from `reader` on has a type identifier that stands for no type.
unfoldable pub HasInvalidRight : ℕ → Memory → ℕ → Type 0
HasInvalidRight zero m reader = ⊥
HasInvalidRight (suc n) m reader =
    EitherWay (right_size (load8 m reader)) (λ k. HasInvalidRight n m (reader + 1 + k))

-- So in the table of an ELF file.
abbrev pub HasInvalidTable : Memory → ℕ → Type 0
HasInvalidTable m elf_file =
    HasInvalidRight (load64 m (access_right_table m elf_file)) m (access_right_table m elf_file + 8)

pub invalid_right :
    (n : ℕ) (m : Memory) (reader : ℕ)
    → load8 m reader ≢ 0
    → load8 m reader ≢ 1
    → load8 m reader ≢ 2
    → load8 m reader ≢ 3
    → load8 m reader ≢ 4
    → HasInvalidRight (suc n) m reader
unfolding HasInvalidRight
invalid_right n m reader n0 n1 n2 n3 n4 =
    rw
      (
        ==_false (load8 m reader) 0 n0,
        ==_false (load8 m reader) 1 n1,
        ==_false (load8 m reader) 2 n2,
        ==_false (load8 m reader) 3 n3,
        ==_false (load8 m reader) 4 n4,
      )
      tt

-- The types of access rights.
pub data RightType (t : ℕ) : Type 0 where
  scheduling : t ≡ 0 → RightType t
  channel : t ≡ 1 → RightType t
  memory_region : t ≡ 2 → RightType t
  irq : t ≡ 3 → RightType t
  control : t ≡ 4 → RightType t
  invalid : t ≢ 0 → t ≢ 1 → t ≢ 2 → t ≢ 3 → t ≢ 4 → RightType t

pub right_type : (t : ℕ) → RightType t
right_type zero = scheduling refl
right_type (suc zero) = channel refl
right_type (suc (suc zero)) = memory_region refl
right_type (suc (suc (suc zero))) = irq refl
right_type (suc (suc (suc (suc zero)))) = control refl
right_type (suc (suc (suc (suc (suc t))))) =
    invalid (λ p. omega (arith, p)) (λ p. omega (arith, p)) (λ p. omega (arith, p))
      (λ p. omega (arith, p)) (λ p. omega (arith, p))

module _ {e : Env} (m : Memory) (pd reader next : ℕ) where
  pub set_up_scheduling-moves :
      Yields e (set_up_scheduling m pd reader next) (λ r. r.0 ≡ reader + 18)
  unfolding set_up_scheduling
  set_up_scheduling-moves = Yields-bind _ _ _ λ _. Yields-bind _ _ _ λ _. Yields-pure _ _ refl

  pub set_up_channel_right-moves :
      Yields e (set_up_channel_right m pd reader next) (λ r. r.0 ≡ reader + 3)
  unfolding set_up_channel_right
  set_up_channel_right-moves = Yields-bind _ _ _ λ _. Yields-pure _ _ refl

  pub set_up_memory_region-moves :
      Yields e (set_up_memory_region m pd reader next) (λ r. r.0 ≡ reader + 26)
  unfolding set_up_memory_region
  set_up_memory_region-moves = Yields-bind _ _ _ λ _. Yields-pure _ _ refl

  pub set_up_irq_right-moves : Yields e (set_up_irq_right m pd reader next) (λ r. r.0 ≡ reader + 2)
  unfolding set_up_irq_right
  set_up_irq_right-moves = Yields-bind _ _ _ λ _. Yields-pure _ _ refl
