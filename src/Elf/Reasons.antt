-- ===== src/Elf/Reasons.antt =====
-- Why the lookup of a symbol fails, and what it returns.
use se_l4cp_poc.Prelude.{ℕ, inl, inr, List}
use se_l4cp_poc.Machine.State.{Memory, World, Env}
use se_l4cp_poc.Machine.Run.{Run}
use se_l4cp_poc.Machine.Yields.{Result, Yields}
use se_l4cp_poc.Machine.Reasons.{Explained, Explains}
use se_l4cp_poc.Elf.{found, get_symbol}
use se_l4cp_poc.Elf.Symbols.{NoNul}
use se_l4cp_poc.Elf.Lookup.{EndsWith, HasNoSymbol, Looked, at, nowhere, no_table, get_symbol-Looked}

Explained-Looked :
    {Bad : Type 0} (m : Memory) (src : ℕ) (target : List ℕ) (w : World) (r : Run ℕ)
    → (HasNoSymbol m src target → Bad)
    → Looked m src target w r
    → Explained Bad r
Explained-Looked m src target w r bad (at a h) = tt
Explained-Looked m src target w r bad (nowhere h) = inr (inr (bad (inr h)))
Explained-Looked m src target w r bad (no_table h) = inr (inr (bad (inl h)))

Result-Looked :
    (m : Memory) (src : ℕ) (target : List ℕ) (w : World) (r : Run ℕ)
    → Looked m src target w r
    → Result (λ a. EndsWith m src target (found a)) r
Result-Looked m src target w r (at a h) = h
Result-Looked m src target w r (nowhere h) = tt
Result-Looked m src target w r (no_table h) = tt

module _ {Bad : Type 0} {e : Env} where
  pub Explains-get_symbol :
      (src : ℕ) (target : List ℕ)
      → NoNul target
      → (HasNoSymbol e.memory src target → Bad)
      → Explains Bad e (get_symbol src target)
  Explains-get_symbol src target valid bad = record {
    from =
        λ w. Explained-Looked e.memory src target w _ bad (get_symbol-Looked e w src target valid);
  }

module _ {e : Env} where
  pub get_symbol-EndsWith :
      (src : ℕ) (target : List ℕ)
      → NoNul target
      → Yields e (get_symbol src target) (λ a. EndsWith e.memory src target (found a))
  get_symbol-EndsWith src target valid = record {
    from = λ w. Result-Looked e.memory src target w _ (get_symbol-Looked e w src target valid);
  }
