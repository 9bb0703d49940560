-- ===== src/Loader/Tracks.antt =====
-- `elf_loader_handle_input` and the trace: what it does to the loader's variables and the memory,
-- and its answer, do not depend on what happened before.
use se_l4cp_poc.Prelude.{
  ℕ, ◌+◌, ◌-◌, zero, suc, ◌≡◌, refl, Bool, true, false, Option, none, some, if◌then◌else◌, leb, inl,
  inr, Bool-cases,
}
use se_l4cp_poc.Machine.State.{Event, LoaderState, Trace, World, Env}
use se_l4cp_poc.Machine.Run.{
  Run, ok, fail, crash, out_of_fuel, Prog, and_then, pure, ask, gets, emit, set_loader, ◌>>=◌,
}
use se_l4cp_poc.Loader.{
  digit_value, parse_hex64_from, parse_hex64, finish_size, handle_size_input, is_inside, store_byte,
  advance, handle_file_input, handle_input,
}

-- A run with another trace.
abbrev pub with_trace : {A : Type 0} → Trace → Run A → Run A
with_trace t (ok a w) = ok a (record w { trace = t })
with_trace t (fail w) = fail (record w { trace = t })
with_trace t (crash n w) = crash n (record w { trace = t })
with_trace t (out_of_fuel w) = out_of_fuel (record w { trace = t })

pub record Tracks {A : Type 0} (e : Env) (m : Prog A) : Type 0 where
  pub from :
      (w : World) (t : Trace)
      → (t' : Trace) × (m e (record w { trace = t }) ≡ with_trace t' (m e w))

module _ {e : Env} {A : Type 0} where
  Tracks-pure : (a : A) → Tracks e (pure a)
  unfolding pure
  Tracks-pure a = record { from = λ w t. (t, refl) }

  Tracks-ask : (f : Env → A) → Tracks e (ask f)
  unfolding ask
  Tracks-ask f = record { from = λ w t. (t, refl) }

  Tracks-if : (b : Bool) (m n : Prog A) → Tracks e m → Tracks e n → Tracks e (if b then m else n)
  Tracks-if true m n tm tn = tm
  Tracks-if false m n tm tn = tn

module _ {e : Env} where
  Tracks-emit : (ev : Event) → Tracks e (emit ev)
  unfolding emit
  Tracks-emit ev = record { from = λ w t. (_, refl) }

  Tracks-set_loader : (f : LoaderState → LoaderState) → Tracks e (set_loader f)
  unfolding set_loader
  Tracks-set_loader f = record { from = λ w t. (_, refl) }

  Tracks-loader : Tracks e (gets (λ w. w.loader))
  unfolding gets
  Tracks-loader = record { from = λ w t. (_, refl) }

module _ {e : Env} {A B : Type 0} where
  behind :
      (r : Run A) (t : Trace) (k : A → Prog B)
      → ((a : A) → Tracks e (k a))
      → (t' : Trace) × (and_then (with_trace t r) (λ a. k a e)
          ≡ with_trace t' (and_then r (λ a. k a e)))
  behind (ok a w) t k tk = (tk a).from w t
  behind (fail w) t k tk = (t, refl)
  behind (crash n w) t k tk = (t, refl)
  behind (out_of_fuel w) t k tk = (t, refl)

  Tracks-bind :
      (m : Prog A) (k : A → Prog B) → Tracks e m → ((a : A) → Tracks e (k a)) → Tracks e (m >>= k)
  unfolding ◌>>=◌
  Tracks-bind m k tm tk = record {
    from = λ w t. let (t1, same) = tm.from w t in rw same (behind (m e w) t1 k tk);
  }

advanced :
    (e : Env) (t : Trace) (w : World)
    → advance e (record w { trace = t }) ≡ with_trace t (advance e w)
unfolding advance
advanced e t w =
    elim (Bool-cases (leb w.loader.elf_size (w.loader.elf_current_vaddr + 1 - e.elf_buffer))) [
      | inl full ↦ rw full refl
      | inr open_ ↦ rw open_ refl
    ]

ruleset tracks_rules =
    (Tracks-pure, Tracks-ask, Tracks-if, Tracks-emit, Tracks-set_loader, Tracks-loader, Tracks-bind)

module _ {e : Env} where
  Tracks-parse_hex64_from :
      (n : ℕ) (shift digits : ℕ → ℕ) (num_digits result : ℕ)
      → Tracks e (parse_hex64_from n shift digits num_digits result)
  unfolding parse_hex64_from
  Tracks-parse_hex64_from zero shift digits num_digits result = Tracks-pure result
  Tracks-parse_hex64_from (suc i) shift digits num_digits result =
      by_digit (digit_value (digits i)) refl
        λ r. Tracks-parse_hex64_from i shift digits num_digits r
    where
      by_digit :
          (o : Option ℕ)
          → digit_value (digits i) ≡ o
          → ((r : ℕ) → Tracks e (parse_hex64_from i shift digits num_digits r))
          → Tracks e (parse_hex64_from (suc i) shift digits num_digits result)
      by_digit none is rest = rw (is, parse_hex64_from) (search tracks_rules)
      by_digit (some v) is rest = rw (is, parse_hex64_from) (rest _)

  Tracks-finish_size : Tracks e finish_size
  unfolding finish_size parse_hex64
  Tracks-finish_size = search (tracks_rules, Tracks-parse_hex64_from) depth 12

  Tracks-handle_size_input : (c : ℕ) → Tracks e (handle_size_input c)
  unfolding handle_size_input
  Tracks-handle_size_input c = search (tracks_rules, Tracks-finish_size) depth 12

  Tracks-handle_file_input : (c : ℕ) → Tracks e (handle_file_input c)
  unfolding handle_file_input
  Tracks-handle_file_input c = record {
    from = λ w t. (
      t,
      elim (Bool-cases (is_inside e w.loader.elf_current_vaddr)) [
        | inl inside ↦ unfold store_byte in rw inside (advanced e t _)
        | inr outside ↦ unfold store_byte in rw outside (advanced e t _)
      ],
    );
  }

  pub Tracks-handle_input : (c : ℕ) → Tracks e (handle_input c)
  unfolding handle_input
  Tracks-handle_input c =
      search (tracks_rules, Tracks-handle_size_input, Tracks-handle_file_input) depth 9
