-- ===== src/Load/Image.antt =====
-- What the loops that write a segment store: its bytes in order, each where the address falls into
-- the temporary page, with the PD's identifier in place of the four bytes of its variable.
use se_l4cp_poc.Prelude.{
  ℕ, zero, suc, ◌+◌, ◌-◌, ◌%◌, ◌≤◌, ◌≡◌, refl, sym, ap, ◌∙◌, true, false, [], ◌∷◌, arith, ◌==◌,
  if◌then◌else◌,
}
use se_l4cp_poc.Machine.State.{Event, stored8, stored32, Trace, World, Env, temp_page_vaddr}
use se_l4cp_poc.Machine.Run.{Run, ok, fail, crash, out_of_fuel}
use se_l4cp_poc.Machine.Evolves.{Evolves, here, says, takes, prepares, IsPlain}

-- The stores of a trace, the newest first.
unfoldable pub stores : Trace → Trace
stores [] = []
stores (stored8 a v ∷ t) = stored8 a v ∷ stores t
stores (stored32 a v ∷ t) = stored32 a v ∷ stores t
stores (_ ∷ t) = stores t

plain_store : (ev : Event) (t : Trace) → IsPlain ev → stores (ev ∷ t) ≡ stores t
unfolding stores
plain_store (stored8 a v) t p = absurd p
plain_store (stored32 a v) t p = absurd p
plain_store _ t p = refl

pub Evolves-stores : {w v : World} → Evolves IsPlain w v → stores v.trace ≡ stores w.trace
Evolves-stores here = refl
Evolves-stores (says steps ev p) = plain_store ev _ p ∙ Evolves-stores steps
Evolves-stores (takes p steps lt) = Evolves-stores steps
Evolves-stores (prepares steps) = Evolves-stores steps

module _ (e : Env) (source : ℕ → ℕ) (pd_id_vaddr pd : ℕ) where
  -- Where the temporary page shows an address.
  abbrev pub target : ℕ → ℕ
  target vaddr = temp_page_vaddr e + vaddr % 0x1000

  -- The stores for `n` bytes from `vaddr` on, of which the first `skip` belong to an identifier
  -- that is stored already, in front of earlier ones.
  unfoldable pub image : (n skip vaddr read : ℕ) → Trace → Trace
  image zero skip vaddr read t = t
  image (suc n) (suc skip) vaddr read t = image n skip (vaddr + 1) (read + 1) t
  image (suc n) zero vaddr read t =
      if vaddr == pd_id_vaddr
      then image n 3 (vaddr + 1) (read + 1) (stored32 (target vaddr) pd ∷ t)
      else image n 0 (vaddr + 1) (read + 1) (stored8 (target vaddr) (source read) ∷ t)

  -- What a run that is to store the image of `n` bytes has stored, in front of `t`: all of it if it
  -- returns, the image of some first bytes if it fails or crashes.
  abbrev pub IsPart : (n vaddr read : ℕ) (t : Trace) → World → Type 0
  IsPart n vaddr read t v = (k : ℕ) × (k ≤ n) × (stores v.trace ≡ image k 0 vaddr read t)

  abbrev pub StoresImage : {A : Type 0} (n vaddr read : ℕ) (t : Trace) → Run A → Type 0
  StoresImage n vaddr read t (ok c v) = stores v.trace ≡ image n 0 vaddr read t
  StoresImage n vaddr read t (fail v) = IsPart n vaddr read t v
  StoresImage n vaddr read t (crash err v) = IsPart n vaddr read t v
  StoresImage n vaddr read t (out_of_fuel v) = ⊥

  pub image_id :
      (n vaddr read : ℕ) (t : Trace)
      → (vaddr == pd_id_vaddr) ≡ true
      → 1 ≤ n
      → image n 0 vaddr read t
        ≡ image (n - 4) 0 (vaddr + 4) (read + 4) (stored32 (target vaddr) pd ∷ t)
  unfolding image
  image_id zero vaddr read t is some_left = absurd (omega arith)
  image_id (suc zero) vaddr read t is some_left = rw is refl
  image_id (suc (suc zero)) vaddr read t is some_left = rw is refl
  image_id (suc (suc (suc zero))) vaddr read t is some_left = rw is refl
  image_id (suc (suc (suc (suc n)))) vaddr read t is some_left =
      let left : n ≡ suc (suc (suc (suc n))) - 4 = omega arith in
      let place : vaddr + 1 + 1 + 1 + 1 ≡ vaddr + 4 = omega arith in
      let next : read + 1 + 1 + 1 + 1 ≡ read + 4 = omega arith in
      rw is (
        ap (λ x. image n 0 x (read + 1 + 1 + 1 + 1) (stored32 (target vaddr) pd ∷ t)) place
        ∙ ap (λ x. image n 0 (vaddr + 4) x (stored32 (target vaddr) pd ∷ t)) next
        ∙ ap (λ x. image x 0 (vaddr + 4) (read + 4) (stored32 (target vaddr) pd ∷ t)) left)

  pub image_byte :
      (n vaddr read : ℕ) (t : Trace)
      → (vaddr == pd_id_vaddr) ≡ false
      → 1 ≤ n
      → image n 0 vaddr read t
        ≡ image (n - 1) 0 (vaddr + 1) (read + 1) (stored8 (target vaddr) (source read) ∷ t)
  unfolding image
  image_byte zero vaddr read t other some_left = absurd (omega arith)
  image_byte (suc n) vaddr read t other some_left =
      let left : n ≡ suc n - 1 = omega arith in
      rw other
        (ap (λ x. image x 0 (vaddr + 1) (read + 1) (stored8 (target vaddr) (source read) ∷ t)) left)

  -- One round stores `ev` for `b` bytes.
  module _ (b : ℕ) (ev : Event) (vaddr read : ℕ) where
    abbrev pub Starts : Type 0
    Starts =
        (n : ℕ) (t : Trace)
        → 1 ≤ n
        → image n 0 vaddr read t ≡ image (n - b) 0 (vaddr + b) (read + b) (ev ∷ t)

    pub first-IsPart :
        Starts
        → 1 ≤ b
        → (n : ℕ) (t : Trace) (v : World) → 1 ≤ n
        → stores v.trace ≡ ev ∷ t
        → IsPart n vaddr read t v
    first-IsPart starts wide n t v some_left h =
        let over : 1 - b ≡ 0 = omega arith in
        (
          1,
          some_left,
          h
              ∙ sym (
                  starts 1 t (omega arith)
                  ∙ ap (λ x. image x 0 (vaddr + b) (read + b) (ev ∷ t)) over
                  ∙ (unfold image in refl)),
        )

    more-IsPart :
        Starts
        → 1 ≤ b
        → (n : ℕ) (t : Trace) (v : World) → 1 ≤ n
        → IsPart (n - b) (vaddr + b) (read + b) (ev ∷ t) v
        → IsPart n vaddr read t v
    more-IsPart starts wide n t v some_left (zero, le, h) =
        first-IsPart starts wide n t v some_left (h ∙ (unfold image in refl))
    more-IsPart starts wide n t v some_left (suc k, le, h) =
        let back : suc k + b - b ≡ suc k = omega arith in
        (
          suc k + b,
          omega arith,
          h
              ∙ sym (
                  starts (suc k + b) t (omega arith)
                  ∙ ap (λ x. image x 0 (vaddr + b) (read + b) (ev ∷ t)) back),
        )

    pub StoresImage-round :
        {A : Type 0}
        → Starts
        → 1 ≤ b
        → (n : ℕ) (t : Trace) (r : Run A) → 1 ≤ n
        → StoresImage (n - b) (vaddr + b) (read + b) (ev ∷ t) r
        → StoresImage n vaddr read t r
    StoresImage-round starts wide n t (ok a v) some_left h = h ∙ sym (starts n t some_left)
    StoresImage-round starts wide n t (fail v) some_left h =
        more-IsPart starts wide n t v some_left h
    StoresImage-round starts wide n t (crash err v) some_left h =
        more-IsPart starts wide n t v some_left h
    StoresImage-round starts wide n t (out_of_fuel v) some_left h = h
