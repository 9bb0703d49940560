-- ===== src/Domains/Interrupts.antt =====
-- The interrupts of the UART, one for each character that is sent to root or child: how uart.h,
-- elf_loader.h and `sel4cp_pd_create` work together in root.c and child.c.
use se_l4cp_poc.Prelude.{
  ℕ, ◌≤◌, ◌<◌, ◌⊎◌, get_or, zero, suc, ◌+◌, ◌≡◌, ◌≢◌, refl, ap, subst, ◌∙◌, List, [], ◌∷◌, ◌++◌,
  length, arith, ◌==◌, if◌then◌else◌, ==_false,
}
use se_l4cp_poc.Machine.State.{Trace, World, Env}
use se_l4cp_poc.Machine.Run.{
  Run, Prog, ok, fail, crash, out_of_fuel, and_then, pure, final, ◌>>=◌, ◌>>◌,
}
use se_l4cp_poc.Loader.{handle_input, elf_buffer_size}
use se_l4cp_poc.Loader.Size.{AreDigits, horner, sized}
use se_l4cp_poc.Loader.Receive.{feed, answers}
use se_l4cp_poc.Loader.Answers.{feed_first, no_first, nothing_more, answers-zeros}
use se_l4cp_poc.Loader.Transfer.{IsIdle, delivered, handle_input-receives}
use se_l4cp_poc.Domains.{create_child}
use se_l4cp_poc.Domains.Root
use se_l4cp_poc.Domains.Child
use se_l4cp_poc.Domains.Received.{received, handle_uart_irq-received, Same, handled}

-- The PDs that load programs, and what they do on a notification of the UART.
pub data Receiver : Type 0 where
  root child : Receiver

abbrev pub served : Receiver → Prog (Unit {0})
served root = Root.notified Root.uart_irq_channel_id
served child = Child.notified Child.irq_channel_id

-- What each does with the file at an address.
abbrev pub created : Receiver → ℕ → Prog (Unit {0})
created root elf_vaddr =
    create_child Root.child_pd_id elf_vaddr "root: failed to create a new PD with id "
      "root: successfully started the program in a new child PD\n"
created child elf_vaddr =
    create_child Child.child_pd_id elf_vaddr "child: failed to create a new PD with id "
      "child: successfully started the program in a new child PD\n"

-- That many notifications of the UART, one after the other.
unfoldable pub interrupts : Receiver → ℕ → Prog (Unit {0})
interrupts d zero = pure tt
interrupts d (suc n) = do served d; interrupts d n

module _ (e : Env) (d : Receiver) where
  -- The next interrupts bring these characters.
  unfoldable pub Brings : List ℕ → World → Type 0
  Brings [] w = Unit
  Brings (c ∷ cs) w = (received e w ≡ c) × Brings cs (final (served d e w))

  served-created :
      (c a : ℕ) (x x1 w : World)
      → Same e x w
      → received e w ≡ c
      → handle_input c e x ≡ ok a x1
      → (t : Trace) × (served d e w
          ≡ (if a == 0 then pure tt else created d a) e (record x1 { trace = t }))
  unfolding Root.notified Child.notified
  served-created c a x x1 w same brings done = by_receiver d
    where
      by_receiver :
          (d' : Receiver)
          → (t : Trace) × (served d' e w
              ≡ (if a == 0 then pure tt else created d' a) e (record x1 { trace = t }))
      by_receiver root =
          let (t, is) =
            handle_uart_irq-received e Root.uart_irq_channel_id Root.child_pd_id _ _ w in
          let (t', now) = handled e c a x x1 w same done t in (t', is ∙ rw (brings, now) refl)
      by_receiver child =
          let (t, is) = handle_uart_irq-received e Child.irq_channel_id Child.child_pd_id _ _ w in
          let (t', now) = handled e c a x x1 w same done t in (t', is ∙ rw (brings, now) refl)

  still-Same :
      (x1 w : World) (t : Trace)
      → served d e w ≡ pure tt e (record x1 { trace = t })
      → Same e x1 (final (served d e w))
  unfolding pure
  still-Same x1 w t is = rw is refl

  next_one :
      (n : ℕ) (x1 w : World) (t : Trace) (r : Run (Unit {0}))
      → served d e w ≡ pure tt e (record x1 { trace = t })
      → interrupts d n e (final (served d e w)) ≡ r
      → interrupts d (suc n) e w ≡ r
  unfolding interrupts pure ◌>>=◌
  next_one n x1 w t r is rest = rw is (subst (λ q. interrupts d n e (final q) ≡ r) is rest)

  last_one : (w : World) (r : Run (Unit {0})) → served d e w ≡ r → interrupts d 1 e w ≡ r
  unfolding interrupts pure ◌>>=◌
  last_one w r is = rw is (unchanged r)
    where
      unchanged : (q : Run (Unit {0})) → and_then q (λ a v. ok tt v) ≡ q
      unchanged (ok a v) = refl
      unchanged (fail v) = refl
      unchanged (crash n v) = refl
      unchanged (out_of_fuel v) = refl

  -- All characters but the last are answered with NULL: the last one creates the PD.
  creates :
      (n : ℕ) (cs : List ℕ) (x y w : World)
      → e.elf_buffer ≢ 0
      → feed cs e x ≡ ok (answers n e.elf_buffer) y
      → Same e x w
      → Brings cs w
      → (t : Trace) × (interrupts d (suc n) e w ≡ created d e.elf_buffer e (record y { trace = t }))
  unfolding answers Brings
  creates zero [] x y w there h same brings = absurd (no_first e _ _ x y h)
  creates (suc n) [] x y w there h same brings = absurd (no_first e _ _ x y h)
  creates zero (c ∷ cs) x y w there h same brings =
      let (x1, now, rest) = feed_first e c e.elf_buffer cs [] x y h in
      let (t, is) =
        served-created c e.elf_buffer x y w same brings.0
          (now ∙ ap (ok e.elf_buffer) (nothing_more e cs x1 y rest)) in
      (t, last_one w _ (is ∙ rw (==_false e.elf_buffer 0 there) refl))
  creates (suc n) (c ∷ cs) x y w there h same brings =
      let (x1, now, rest) = feed_first e c 0 cs (answers n e.elf_buffer) x y h in
      let (t, is) = served-created c 0 x x1 w same brings.0 now in
      let (t', later) =
        creates n cs x1 y (final (served d e w)) there rest (still-Same x1 w t is) brings.1 in
      (t', next_one (suc n) x1 w t _ is later)

  module _ (ds : List ℕ) (b : ℕ) (bs : List ℕ) (w : World) (idle : IsIdle e w)
      (valid : AreDigits ds) (short : length ds ≤ 8) (exact : horner 0 ds ≡ length (b ∷ bs))
      (fits : length (b ∷ bs) ≤ elf_buffer_size) (there : e.elf_buffer ≢ 0) where
    -- From the idle state, with a size of at most eight hexadecimal digits that is the length of the
    -- file, which is not empty and fits the buffer, where the buffer is not at address 0: if the
    -- next interrupts of the UART bring the characters of a transfer, then root, and so child,
    -- returns from each but the last, with which it creates its PD from the buffer. It does so in
    -- a state in which the loader is idle, the bytes of the file are in the buffer in order, and no
    -- other memory and no variable of `alloc_state` has changed since the first character.
    pub interrupts-create :
        Brings (ds ++ b'\n' ∷ b ∷ bs) w
        → (v : World) × (interrupts d (length ds + length (b ∷ bs) + 1) e w
            ≡ created d e.elf_buffer e v)
          × IsIdle e v
          × ((i : ℕ) → i < length (b ∷ bs) → v.memory (e.elf_buffer + i) ≡ get_or (b ∷ bs) i 0)
          × ((a : ℕ)
              → (a < e.elf_buffer) ⊎ (e.elf_buffer + length (b ∷ bs) ≤ a)
              → v.memory a ≡ w.memory a)
          × (v.alloc_state ≡ w.alloc_state)
    unfolding delivered sized
    interrupts-create brings =
        let (fed, idle_again, inside, outside, _) =
          handle_input-receives e ds w idle valid short b bs exact fits in
        let (t, is) =
          creates (length ds + suc (length bs)) _ w (delivered e ds (b ∷ bs) w) w there
            (fed
              ∙ ap (λ l. ok l (delivered e ds (b ∷ bs) w))
                  (answers-zeros (length ds) (length bs) e.elf_buffer))
            refl brings in
        (
          record (delivered e ds (b ∷ bs) w) { trace = t },
          ap (λ n. interrupts d n e w) (omega arith) ∙ is,
          record { no_size = refl; no_digit = refl; at_start = refl },
          inside,
          outside,
          refl,
        )
