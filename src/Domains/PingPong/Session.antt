-- ===== src/Domains/PingPong/Session.antt =====
-- The session of child and pong that README.md shows.
use se_l4cp_poc.Prelude.{
  ℕ, ◌≡◌, refl, sym, subst, arith, ap, ◌∙◌, List, [], ◌∷◌, ◌++◌, some, inl, inr, ◌⊎◌,
}
use mathlib.Core.List.{append_cancel_right}
use se_l4cp_poc.Machine.State.{invoked, printed, printed_hex64, Trace, World, Env}
use se_l4cp_poc.Machine.Run.{Run, ok, final, invoke, ◌>>=◌}
use se_l4cp_poc.Api.{notify}
use se_l4cp_poc.Domains.Channels.{Route, arrives, signal_on}
use se_l4cp_poc.Domains.Child
use se_l4cp_poc.Domains.Pong
use se_l4cp_poc.Domains.PingPong.{
  child_id, pong_id, System, Step, child_notified, pong_notified, Reach, here, next, Started,
  started,
}

-- The first message under way, and the ones behind it.
abbrev first_pd : List (ℕ × ℕ) → ℕ
first_pd [] = 0
first_pd ((pd, c) ∷ ms) = pd

abbrev first_channel : List (ℕ × ℕ) → ℕ
first_channel [] = 0
first_channel ((pd, c) ∷ ms) = c

abbrev others_of : List (ℕ × ℕ) → List (ℕ × ℕ)
others_of [] = []
others_of (m ∷ ms) = ms

abbrev pub child_started : Trace
child_started = printed "child: sending ping!\n" ∷ printed "child: initialized!\n" ∷ []

abbrev pub pong_answered : Trace
pong_answered =
    printed "pong: ponging the same channel\n"
    ∷ printed "\n"
    ∷ printed_hex64 1
    ∷ printed "pong: received message on channel "
    ∷ child_started

abbrev pub child_ready : Trace
child_ready =
    printed "child: ready to receive ELF file to load dynamically!\n"
    ∷ printed "child: received pong!\n"
    ∷ pong_answered

-- How far the session is.
abbrev pub Phase : System → Type 0
Phase s =
    ((s.under_way ≡ (pong_id, 1) ∷ []) × (s.console ≡ child_started))
    ⊎ (((s.under_way ≡ (child_id, 1) ∷ []) × (s.console ≡ pong_answered))
        ⊎ ((s.under_way ≡ []) × (s.console ≡ child_ready)))

abbrev pub Finished : System → Type 0
Finished t = (t.under_way ≡ []) × (t.console ≡ child_ready)

module _ (channels_of : ℕ → List ℕ) (route : Route) (e_child e_pong : Env) where
  -- The events of a run that returned.
  events_of :
      (r : Run (Unit {0})) {w : World} (new events old : Trace)
      → r ≡ ok tt w
      → (final r).trace ≡ events ++ old
      → w.trace ≡ new ++ old
      → new ≡ events
  events_of r new events old run made grown =
      append_cancel_right new events old (sym grown ∙ ap (λ x. (final x).trace) (sym run) ∙ made)

  module _ (to_pong : arrives channels_of route child_id (signal_on 1) ≡ some (pong_id, 1 ∷ []))
      (to_child : arrives channels_of route pong_id (signal_on 1) ≡ some (child_id, 1 ∷ [])) where
    Started-Phase :
        {w v : World} {s : System} → Started channels_of route e_child e_pong w v s → Phase s
    unfolding Child.init notify invoke ◌>>=◌
    Started-Phase {w} (started new run grown) =
        let is =
          events_of (Child.init e_child w) new (invoked (signal_on 1) _ ∷ child_started) w.trace run
            refl grown in
        inl (rw (is, to_pong) refl, rw is refl)

    child_events :
        {w : World} (u : World) (new : Trace)
        → Child.notified 1 e_child u ≡ ok tt w
        → w.trace ≡ new ++ u.trace
        → new
          ≡ printed "child: ready to receive ELF file to load dynamically!\n"
            ∷ printed "child: received pong!\n"
            ∷ []
    unfolding Child.notified ◌>>=◌
    child_events u new run grown =
        events_of (Child.notified 1 e_child u) new _ u.trace run refl grown

    abbrev pong_said : ℕ → Trace
    pong_said answer =
        invoked (signal_on 1) answer
        ∷ printed "pong: ponging the same channel\n"
        ∷ printed "\n"
        ∷ printed_hex64 1
        ∷ printed "pong: received message on channel "
        ∷ []

    pong_events :
        {w : World} (u : World) (new : Trace)
        → Pong.notified 1 e_pong u ≡ ok tt w
        → w.trace ≡ new ++ u.trace
        → (answer : ℕ) × (new ≡ pong_said answer)
    unfolding Pong.notified notify invoke ◌>>=◌
    pong_events u new run grown =
        (_, events_of (Pong.notified 1 e_pong u) new (pong_said _) u.trace run refl grown)

    Step-Phase : {s t : System} → Phase s → Step channels_of route e_child e_pong s t → Phase t
    Step-Phase {s} (inl (at, said)) (child_notified c new is run grown) =
        absurd (omega (arith, ap first_pd (sym at ∙ is)))
    Step-Phase {s} (inl (at, said)) (pong_notified c {w = u} new is run grown) =
        let now : c ≡ 1 = ap first_channel (sym is ∙ at) in
        let rest = ap others_of (sym is ∙ at) in
        let (answer, events) =
          pong_events s.pong new (subst (λ x. Pong.notified x e_pong s.pong ≡ ok tt u) now run)
            grown in
        inr (inl (rw (rest, events, to_child) refl, rw (events, said) refl))
    Step-Phase {s} (inr (inl (at, said))) (child_notified c {w = u} new is run grown) =
        let now : c ≡ 1 = ap first_channel (sym is ∙ at) in
        let rest = ap others_of (sym is ∙ at) in
        let events =
          child_events s.child new (subst (λ x. Child.notified x e_child s.child ≡ ok tt u) now run)
            grown in
        inr (inr (rw (rest, events) refl, rw (events, said) refl))
    Step-Phase {s} (inr (inl (at, said))) (pong_notified c new is run grown) =
        absurd (omega (arith, ap first_pd (sym at ∙ is)))
    Step-Phase {s} (inr (inr (at, said))) (child_notified c new is run grown) =
        absurd (omega (arith, ap first_pd (sym at ∙ is)))
    Step-Phase {s} (inr (inr (at, said))) (pong_notified c new is run grown) =
        absurd (omega (arith, ap first_pd (sym at ∙ is)))

    Reach-Phase : {s t : System} → Phase s → Reach channels_of route e_child e_pong s t → Phase t
    Reach-Phase p here = p
    Reach-Phase p (next reach step) = Step-Phase (Reach-Phase p reach) step

    child_finishes :
        (s : System)
        → s.under_way ≡ (child_id, 1) ∷ []
        → s.console ≡ pong_answered
        → (t : System) × Reach channels_of route e_child e_pong s t × Finished t
    unfolding Child.notified ◌>>=◌
    child_finishes s at said = (
      _,
      next here (
          child_notified 1
            (printed "child: ready to receive ELF file to load dynamically!\n"
              ∷ printed "child: received pong!\n"
              ∷ [])
            at refl refl),
      (refl, rw said refl),
    )

    Reach-trans :
        {s t u : System}
        → Reach channels_of route e_child e_pong s t
        → Reach channels_of route e_child e_pong t u
        → Reach channels_of route e_child e_pong s u
    Reach-trans p here = p
    Reach-trans p (next q step) = next (Reach-trans p q) step

    pong_finishes :
        (s : System)
        → s.under_way ≡ (pong_id, 1) ∷ []
        → s.console ≡ child_started
        → (t : System) × Reach channels_of route e_child e_pong s t × Finished t
    unfolding Pong.notified notify invoke ◌>>=◌
    pong_finishes s at said =
        let (t, reach, finished) = child_finishes _ (rw to_child refl) (rw said refl) in
        (t, Reach-trans (next here (pong_notified 1 (pong_said _) at refl refl)) reach, finished)

    -- Where what child notifies on its channel 1 arrives at pong as channel 1, and back: once child
    -- has run `init`, whatever notification is delivered, the one under way is child's to pong,
    -- then pong's to child, then none, and the console shows the lines of README.md up to there;
    -- and it comes to the last of these.
    pub Started-Finishes :
        {w v : World} {s : System}
        → Started channels_of route e_child e_pong w v s
        → ((t : System) → Reach channels_of route e_child e_pong s t → Phase t)
          × ((t : System) × Reach channels_of route e_child e_pong s t × Finished t)
    Started-Finishes start =
        (λ t. Reach-Phase (Started-Phase start), finishes (Started-Phase start))
      where
        finishes :
            {s : System}
            → Phase s
            → (t : System) × Reach channels_of route e_child e_pong s t × Finished t
        finishes {s} (inl (at, said)) = pong_finishes s at said
        finishes {s} (inr (inl (at, said))) = child_finishes s at said
        finishes {s} (inr (inr (at, said))) = (s, here, (at, said))
