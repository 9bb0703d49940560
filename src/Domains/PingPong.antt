-- ===== src/Domains/PingPong.antt =====
-- child.c and pong.c, connected by a channel: the notifications that are under way, and what the
-- two print, as the core platform delivers one notification after the other.
pub mod Session
use se_l4cp_poc.Prelude.{
  ℕ, ◌+◌, ◌≡◌, refl, sym, subst, arith, ap, ◌∙◌, List, [], ◌∷◌, ◌++◌, map, Option, none, some, inl,
  inr, ◌⊎◌,
}
use mathlib.Core.List.{append_cancel_right}
use se_l4cp_poc.Machine.State.{Event, invoked, printed, printed_hex64, Trace, World, Env}
use se_l4cp_poc.Machine.Run.{Run, ok, final, invoke, ◌>>=◌}
use se_l4cp_poc.Api.{notify}
use se_l4cp_poc.Domains.Channels.{Route, arrives, signal_on}
use se_l4cp_poc.Domains.Root
use se_l4cp_poc.Domains.Child
use se_l4cp_poc.Domains.Pong

-- The identifiers that root.c and configuration.system give the two.
abbrev pub child_id : ℕ
child_id = Root.child_pd_id

abbrev pub pong_id : ℕ
pong_id = 2

-- What events print, the oldest last as in the trace.
abbrev pub prints : Trace → Trace
prints [] = []
prints (printed s ∷ t) = printed s ∷ prints t
prints (printed_hex64 n ∷ t) = printed_hex64 n ∷ prints t
prints (_ ∷ t) = prints t

pub record System : Type 0 where
  pub child : World
  pub pong : World
  -- The PDs to be notified and their channels, the oldest first.
  pub under_way : List (ℕ × ℕ)
  pub console : Trace

module _ (channels_of : ℕ → List ℕ) (route : Route) where
  abbrev to_all : Option (ℕ × List ℕ) → List (ℕ × ℕ)
  to_all none = []
  to_all (some (pd, channels)) = map (λ c. (pd, c)) channels

  -- The notifications that the events of a PD bring under way.
  abbrev pub mail : (sender : ℕ) → Trace → List (ℕ × ℕ)
  mail sender [] = []
  mail sender (invoked call answer ∷ t) =
      mail sender t ++ to_all (arrives channels_of route sender call)
  mail sender (_ ∷ t) = mail sender t

  module _ (e_child e_pong : Env) where
    -- The entry points run to their end, one at a time.
    pub data Step (s : System) : System → Type 0 where
      child_notified :
          (channel : ℕ) {others : List (ℕ × ℕ)} {w : World} (new : Trace)
          → s.under_way ≡ (child_id, channel) ∷ others
          → Child.notified channel e_child s.child ≡ ok tt w
          → w.trace ≡ new ++ s.child.trace
          → Step s (record {
            child = w;
            pong = s.pong;
            under_way = others ++ mail child_id new;
            console = prints new ++ s.console;
          })
      pong_notified :
          (channel : ℕ) {others : List (ℕ × ℕ)} {w : World} (new : Trace)
          → s.under_way ≡ (pong_id, channel) ∷ others
          → Pong.notified channel e_pong s.pong ≡ ok tt w
          → w.trace ≡ new ++ s.pong.trace
          → Step s (record {
            child = s.child;
            pong = w;
            under_way = others ++ mail pong_id new;
            console = prints new ++ s.console;
          })

    pub data Reach (s : System) : System → Type 0 where
      here : Reach s s
      next : {t u : System} → Reach s t → Step t u → Reach s u

    -- The child has run `init`, and pong waits.
    pub data Started (w v : World) : System → Type 0 where
      started :
          {u : World} (new : Trace)
          → Child.init e_child w ≡ ok tt u
          → u.trace ≡ new ++ w.trace
          → Started w v
              (record { child = u; pong = v; under_way = mail child_id new; console = prints new })
