-- ===== src/Create/Slots.antt =====
-- Capabilities in the slots of CNodes, and `seL4_CNode_Move`.
use se_l4cp_poc.Prelude.{
  ℕ, zero, suc, ◌+◌, ◌≤◌, ◌<◌, ◌≡◌, ◌≢◌, refl, sym, ap, ◌∙◌, ◌⊎◌, inl, inr, ◌∷◌, arith, ◌==◌, ◌&&◌,
  ==_false, ==_iff, if◌then◌else◌,
}
use se_l4cp_poc.Machine.State.{cnode_move, invoked, Trace}

-- What the slots of CNodes hold, by the address of the CNode's capability; 0 is nothing.
abbrev pub Slots : Type 0
Slots = ℕ → ℕ → ℕ

abbrev pub moved_slot : (target d own s : ℕ) → Slots → Slots
moved_slot target d own s f root slot =
    if (root == target) && (slot == d)
    then f own s
    else if (root == own) && (slot == s)
    then 0
    else f root slot

-- seL4's documentation of `seL4_CNode_Move`: an accepted one puts what the source slot holds into
-- the destination slot, and leaves the source slot empty; a refused one changes no slot.
pub record IsMoving (contents : Trace → Slots) : Type 0 where
  pub accepted_move :
      (target d depth own s src_depth : ℕ) (t : Trace) (root slot : ℕ)
      → contents (invoked (cnode_move target d depth own s src_depth) 0 ∷ t) root slot
        ≡ moved_slot target d own s (contents t) root slot
  pub refused_move :
      (target d depth own s src_depth a : ℕ) (t : Trace)
      → a ≢ 0
      → contents (invoked (cnode_move target d depth own s src_depth) a ∷ t) ≡ contents t

-- The slots of `target` from `i` on have what those of `own` from `k` on had, `m` of them.
pub record Filled (target own i k m : ℕ) (before after : Slots) : Type 0 where
  pub moved : (j : ℕ) → j < m → after target (i + j) ≡ before own (k + j)
  pub kept : (slot : ℕ) → (slot < i) ⊎ (i + m ≤ slot) → after target slot ≡ before target slot
  pub remaining : (slot : ℕ) → (slot < k) ⊎ (k + m ≤ slot) → after own slot ≡ before own slot

wider : (n m slot : ℕ) → (slot < n) ⊎ (n + suc m ≤ slot) → (slot < n + 1) ⊎ (n + 1 + m ≤ slot)
wider n m slot (inl before) = inl (omega (arith, before))
wider n m slot (inr behind) = inr (omega (arith, behind))

not_first : (n m slot : ℕ) → (slot < n) ⊎ (n + suc m ≤ slot) → slot ≢ n
not_first n m slot (inl before) p = omega (arith, before, p)
not_first n m slot (inr behind) p = omega (arith, behind, p)

module _ (target own : ℕ) (apart : target ≢ own) where
  pub Filled-nothing : (i k : ℕ) (f : Slots) → Filled target own i k 0 f f
  Filled-nothing i k f = record {
    moved = λ j lt. absurd (omega (arith, lt));
    kept = λ slot outside. refl;
    remaining = λ slot outside. refl;
  }

  at_target : (i k : ℕ) (f : Slots) → moved_slot target i own k f target i ≡ f own k
  at_target i k f = rw ((==_iff target target).1 refl, (==_iff i i).1 refl) refl

  beside_target :
      (i k : ℕ) (f : Slots) (slot : ℕ)
      → slot ≢ i
      → moved_slot target i own k f target slot ≡ f target slot
  beside_target i k f slot other =
      rw ((==_iff target target).1 refl, ==_false slot i other, ==_false target own apart) refl

  beside_own :
      (i k : ℕ) (f : Slots) (slot : ℕ)
      → slot ≢ k
      → moved_slot target i own k f own slot ≡ f own slot
  beside_own i k f slot other =
      rw ((==_iff own own).1 refl, ==_false slot k other, ==_false own target (λ p. apart (sym p)))
        refl

  pub Filled-more :
      (i k m : ℕ) (f after : Slots)
      → Filled target own (i + 1) (k + 1) m (moved_slot target i own k f) after
      → Filled target own i k (suc m) f after
  Filled-more i k m f after rest = record {
    moved = λ j lt. one j lt;
    kept = λ slot outside.
        rest.kept slot (wider i m slot outside)
        ∙ beside_target i k f slot (not_first i m slot outside);
    remaining = λ slot outside.
        rest.remaining slot (wider k m slot outside)
        ∙ beside_own i k f slot (not_first k m slot outside);
  }
    where
      one : (j : ℕ) → j < suc m → after target (i + j) ≡ f own (k + j)
      one zero lt =
          let to : i + 0 ≡ i = omega arith in
          let source : k ≡ k + 0 = omega arith in
          ap (after target) to
          ∙ rest.kept i (inl (omega arith))
          ∙ at_target i k f
          ∙ ap (f own) source
      one (suc j) lt =
          let to : i + suc j ≡ i + 1 + j = omega arith in
          let source : k + 1 + j ≡ k + suc j = omega arith in
          ap (after target) to
          ∙ rest.moved j (omega (arith, lt))
          ∙ beside_own i k f (k + 1 + j) (λ p. omega (arith, p))
          ∙ ap (f own) source
