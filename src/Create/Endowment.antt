-- ===== src/Create/Endowment.antt =====
-- What a PD that may create PDs has in its pools, while the pools are handed over one by one.
use se_l4cp_poc.Prelude.{
  ℕ, ◌+◌, ◌-◌, ◌≤◌, ◌<◌, ◌≡◌, ◌≢◌, refl, sym, ap, subst, ◌∙◌, ◌⊎◌, inl, inr, arith, ltb, leb,
  ltb→lt, ltb_false→le, leb→le, leb_false→lt, Bool-cases,
}
use se_l4cp_poc.Layout.{Pool, tcbs, pool_num, pool_base}
use se_l4cp_poc.Layout.Slots.{Slot, pooled, index, index_injective}
use se_l4cp_poc.Machine.State.{Trace, idx, World, Env}
use se_l4cp_poc.Machine.Bounds.{IsBounded}
use se_l4cp_poc.Create.Shares.{Pool-discrete, share, share_none, bound}
use se_l4cp_poc.Create.Slots.{Slots, Filled}
use se_l4cp_poc.Create.Handover.{own_cnode}

pool_of : Slot → Pool
pool_of (pooled p i) = p
pool_of _ = tcbs

-- The slot of an object lies outside any part of another pool.
outside :
    (p q : Pool) (j i n : ℕ)
    → q ≢ p
    → j < pool_num q
    → i + n ≤ pool_num p
    → (pool_base q + j < pool_base p + i) ⊎ (pool_base p + i + n ≤ pool_base q + j)
unfolding index pool_of
outside p q j i n other inside fits = elim (Bool-cases (ltb (pool_base q + j) (pool_base p + i))) [
  | inl before ↦ inl (ltb→lt _ _ before)
  | inr not_before ↦ elim (Bool-cases (leb (pool_base p + i + n) (pool_base q + j))) [
    | inl behind ↦ inr (leb→le _ _ behind)
    | inr not_behind ↦
        let from_start : pool_base p + i ≤ pool_base q + j = ltb_false→le _ _ not_before in
        let to_end : pool_base q + j < pool_base p + i + n = leb_false→lt _ _ not_behind in
        let same : pool_base q + j ≡ pool_base p + (pool_base q + j - pool_base p) =
          omega (arith, from_start) in
        absurd (
          other (
            ap pool_of (
              index_injective (pooled q j) (pooled p (pool_base q + j - pool_base p)) inside
                (omega (arith, from_start, to_end, fits)) same)))
  ]
]

module _ (contents : Trace → Slots) (e : Env) (target : ℕ) where
  -- From the world `w` to `v`, so many objects of each pool were handed over: the first slots of the
  -- pool in `target` have what the next ones of the current PD's had. All other slots of the pools
  -- in `target`, and the slots that are not taken from in the current PD's, are as they were.
  pub record Endowed (given : Pool → ℕ) (w v : World) : Type 0 where
    pub counted : (p : Pool) → idx p v.alloc_state ≡ idx p w.alloc_state + given p
    pub moved :
        (p : Pool) (j : ℕ)
        → j < given p
        → contents v.trace target (pool_base p + j)
          ≡ contents w.trace (own_cnode e) (pool_base p + (idx p w.alloc_state + j))
    pub kept :
        (p : Pool) (j : ℕ)
        → given p ≤ j
        → j < pool_num p
        → contents v.trace target (pool_base p + j) ≡ contents w.trace target (pool_base p + j)
    pub remaining :
        (p : Pool) (j : ℕ)
        → idx p v.alloc_state ≤ j
        → j < pool_num p
        → contents v.trace (own_cnode e) (pool_base p + j)
          ≡ contents w.trace (own_cnode e) (pool_base p + j)

  pub Endowed-nothing : (w : World) → Endowed (share 0) w w
  Endowed-nothing w = record {
    counted = λ p. omega (arith, share_none p);
    moved = λ p j lt. absurd (omega (arith, lt, share_none p));
    kept = λ p j le lt. refl;
    remaining = λ p j le lt. refl;
  }

  module _ (w v u : World) (p : Pool) (given given' : Pool → ℕ) (n : ℕ) (before : Endowed given w v)
      (none_yet : given p ≡ 0) (now : given' p ≡ n)
      (elsewhere : (q : Pool) → q ≢ p → given' q ≡ given q) (bounded : IsBounded u.alloc_state)
      (counted_on : idx p u.alloc_state ≡ idx p v.alloc_state + n)
      (untouched : (q : Pool) → q ≢ p → idx q u.alloc_state ≡ idx q v.alloc_state)
      (filled : Filled target
        (own_cnode e)
        (pool_base p + 0)
        (pool_base p + idx p v.alloc_state)
        n
        (contents v.trace)
        (contents u.trace)) where
    fits : idx p v.alloc_state + n ≤ pool_num p
    fits = omega (arith, counted_on, bound p u.alloc_state bounded)

    start : idx p v.alloc_state ≡ idx p w.alloc_state
    start = omega (arith, before.counted p, none_yet)

    moved_here :
        (j : ℕ)
        → j < n
        → contents u.trace target (pool_base p + j)
          ≡ contents w.trace (own_cnode e) (pool_base p + (idx p w.alloc_state + j))
    moved_here j lt =
        let to : pool_base p + j ≡ pool_base p + 0 + j = omega arith in
        let source : pool_base p + idx p v.alloc_state + j
            ≡ pool_base p + (idx p v.alloc_state + j) =
          omega arith in
        let from_w : pool_base p + (idx p v.alloc_state + j)
            ≡ pool_base p + (idx p w.alloc_state + j) =
          omega (arith, start) in
        ap (contents u.trace target) to
        ∙ filled.moved j lt
        ∙ ap (contents v.trace (own_cnode e)) source
        ∙ before.remaining p (idx p v.alloc_state + j) (omega arith) (omega (arith, fits, lt))
        ∙ ap (contents w.trace (own_cnode e)) from_w

    target_beside :
        (q : Pool) (j : ℕ)
        → q ≢ p
        → j < pool_num q
        → contents u.trace target (pool_base q + j) ≡ contents v.trace target (pool_base q + j)
    target_beside q j other inside =
        filled.kept _ (outside p q j 0 n other inside (omega (arith, fits)))

    own_beside :
        (q : Pool) (j : ℕ)
        → q ≢ p
        → j < pool_num q
        → contents u.trace (own_cnode e) (pool_base q + j)
          ≡ contents v.trace (own_cnode e) (pool_base q + j)
    own_beside q j other inside =
        filled.remaining _ (outside p q j (idx p v.alloc_state) n other inside fits)

    kept_here :
        (j : ℕ)
        → n ≤ j
        → j < pool_num p
        → contents u.trace target (pool_base p + j) ≡ contents w.trace target (pool_base p + j)
    kept_here j le lt =
        filled.kept _ (inr (omega (arith, le))) ∙ before.kept p j (omega (arith, none_yet)) lt

    remaining_here :
        (j : ℕ)
        → idx p u.alloc_state ≤ j
        → j < pool_num p
        → contents u.trace (own_cnode e) (pool_base p + j)
          ≡ contents w.trace (own_cnode e) (pool_base p + j)
    remaining_here j le lt =
        filled.remaining _ (inr (omega (arith, le, counted_on)))
        ∙ before.remaining p j (omega (arith, le, counted_on)) lt

    here : (P : Pool → Type 0) (q : Pool) → q ≡ p → P p → P q
    here P q is h = subst P (sym is) h

    pub Endowed-more : Endowed given' w u
    Endowed-more = record {
      counted = λ q. elim (Pool-discrete q p) [
        | yes is ↦
            here (λ x. idx x u.alloc_state ≡ idx x w.alloc_state + given' x) q is
              (omega (arith, counted_on, start, now))
        | no other ↦ omega (arith, untouched q other, elsewhere q other, before.counted q)
      ];
      moved = λ q j lt. elim (Pool-discrete q p) [
        | yes is ↦
            here
              (λ x.
                j < given' x
                → contents u.trace target (pool_base x + j)
                  ≡ contents w.trace (own_cnode e) (pool_base x + (idx x w.alloc_state + j)))
              q is (λ l. moved_here j (omega (arith, l, now))) lt
        | no other ↦
            target_beside q j other (
              omega (
                arith,
                lt,
                elsewhere q other,
                before.counted q,
                untouched q other,
                bound q u.alloc_state bounded,
              ))
            ∙ before.moved q j (omega (arith, lt, elsewhere q other))
      ];
      kept = λ q j le lt. elim (Pool-discrete q p) [
        | yes is ↦
            here
              (λ x.
                given' x ≤ j
                → j < pool_num x
                → contents u.trace target (pool_base x + j)
                  ≡ contents w.trace target (pool_base x + j))
              q is (λ l r. kept_here j (omega (arith, l, now)) r) le lt
        | no other ↦
            target_beside q j other lt ∙ before.kept q j (omega (arith, elsewhere q other, le)) lt
      ];
      remaining = λ q j le lt. elim (Pool-discrete q p) [
        | yes is ↦
            here
              (λ x.
                idx x u.alloc_state ≤ j
                → j < pool_num x
                → contents u.trace (own_cnode e) (pool_base x + j)
                  ≡ contents w.trace (own_cnode e) (pool_base x + j))
              q is (remaining_here j) le lt
        | no other ↦
            own_beside q j other lt ∙ before.remaining q j (omega (arith, untouched q other, le)) lt
      ];
    }
