-- ===== src/Domains/Channels.antt =====
-- Where a notification arrives: the capabilities that `sel4cp_internal_set_up_channel` mints, as
-- the kernel documents minting and signalling, and as the core platform's main loop, which is not
-- in the repository, documents that it calls `notified` for the badge that it receives.
use se_l4cp_poc.Prelude.{
  ℕ, ◌+◌, ◌-◌, ◌^◌, ◌<◌, ◌≡◌, ◌≢◌, refl, ap, ◌∙◌, inl, inr, false, ◌&&◌, List, [], ◌∷◌, Option,
  none, some, arith, ◌==◌, ==_iff, ==_refl, ==_false, ◌⊎◌, Bool-cases, lt→ltb, if◌then◌else◌,
}
use mathlib.Core.Option
use se_l4cp_poc.Prelude.Words.{u32}
use se_l4cp_poc.Layout.{
  pd_cap_bits, base_output_notification_cap, base_cnode_cap, base_unbadged_channel_cap,
}
use se_l4cp_poc.Machine.State.{Call, cnode_mint, signal, invoked, Trace, World, Env}
use se_l4cp_poc.Machine.Run.{Run, ok, fail, crash, out_of_fuel, and_then, invoke, ◌>>=◌}
use se_l4cp_poc.Machine.Issued.{said}
use se_l4cp_poc.Kernel.{sel4_all_rights}
use se_l4cp_poc.Caps.{insist, mint_channel, set_up_channel}

-- For a slot of a PD that holds a capability to notify: the PD to notify, and the badge.
abbrev pub Route : Type 0
Route = (pd slot : ℕ) → Option (ℕ × ℕ)

-- What an accepted mint does: a slot of a PD's CNode gets what another one has, with a badge.
abbrev pub badged : (service index src_root src_index badge : ℕ) → Route → Route
badged service index src_root src_index badge route pd slot =
    if (index == slot) && (service == base_cnode_cap + pd)
    then Option.map (λ r. (r.0, badge)) (route (src_root - base_cnode_cap) src_index)
    else route pd slot

-- What is relied on of the kernel.
abbrev pub IsMinting : (Trace → Route) → Type 0
IsMinting routes =
    (service index depth src_root src_index src_depth rights badge : ℕ) (t : Trace) (pd slot : ℕ)
    → routes
        (invoked (cnode_mint service index depth src_root src_index src_depth rights badge) 0 ∷ t)
        pd slot
      ≡ badged service index src_root src_index badge (routes t) pd slot

-- A PD has the capability to its own notification, without a badge.
abbrev pub HasUnbadged : Route → (pd : ℕ) → Type 0
HasUnbadged route pd = route pd (base_unbadged_channel_cap + pd) ≡ some (pd, 0)

-- The call of `mint_channel`.
abbrev mint : (from to channel_from channel_to : ℕ) → Call
mint from to channel_from channel_to =
    cnode_mint (u32 (base_cnode_cap + from)) (base_output_notification_cap + channel_from)
      pd_cap_bits (u32 (base_cnode_cap + to)) (u32 (base_unbadged_channel_cap + to)) pd_cap_bits
      sel4_all_rights (2 ^ channel_to)

-- A run is that of an accepted call, or crashes with the error that the kernel answered.
abbrev Insisted : Call → World → Run (Unit {0}) → Type 0
Insisted call w (ok _ v) = v ≡ said call 0 w
Insisted call w (fail v) = ⊥
Insisted call w (crash err v) = err ≢ 0
Insisted call w (out_of_fuel v) = ⊥

mint_channel-Insisted :
    (e : Env) (w : World) (from to channel_from channel_to : ℕ)
    → channel_to < 31
    → Insisted
        (mint from to channel_from channel_to)
        w
        (mint_channel from to channel_from channel_to e w)
unfolding mint_channel insist invoke ◌>>=◌
mint_channel-Insisted e w from to channel_from channel_to lt =
    let call = mint from to channel_from channel_to in
    rw (lt→ltb channel_to 31 lt) (elim (Bool-cases (e.kernel w.trace call == 0)) [
      | inl accept ↦
          let is : e.kernel w.trace call ≡ 0 = (==_iff _ _).0 accept in rw accept (rw is refl)
      | inr refusal ↦ rw refusal (λ p. ground (arith, refusal, p))
    ])

exact : (base n : ℕ) → base < 1000 → n < 64 → u32 (base + n) ≡ base + n
exact base n low small = omega (arith, low, small)

module _ (routes : Trace → Route) (minting : IsMinting routes) where
  -- A call that was accepted last is found, and is looked past for another PD or another slot.
  routes-mint :
      (t : Trace) (from to channel_from channel_to : ℕ)
      → from < 64
      → to < 64
      → HasUnbadged (routes t) to
      → routes
          (invoked (mint from to channel_from channel_to) 0 ∷ t)
          from
          (base_output_notification_cap + channel_from)
        ≡ some (to, 2 ^ channel_to)
  routes-mint t from to channel_from channel_to lt_from lt_to known =
      let back : u32 (base_cnode_cap + to) - base_cnode_cap ≡ to = omega (arith, lt_to) in
      minting _ _ _ _ _ _ _ _ t from _
      ∙ rw
          (
            back,
            exact base_unbadged_channel_cap to (omega arith) lt_to,
            known,
            exact base_cnode_cap from (omega arith) lt_from,
            ==_refl (base_cnode_cap + from),
            ==_refl (base_output_notification_cap + channel_from),
          )
          refl

  routes-other :
      (t : Trace) (from to channel_from channel_to pd slot : ℕ)
      → from < 64
      → (from ≢ pd) ⊎ (base_output_notification_cap + channel_from ≢ slot)
      → routes (invoked (mint from to channel_from channel_to) 0 ∷ t) pd slot ≡ routes t pd slot
  routes-other t from to channel_from channel_to pd slot lt_from (inl other) =
      let beside : (u32 (base_cnode_cap + from) == base_cnode_cap + pd) ≡ false =
        ==_false _ _ (λ p. other (omega (arith, p, lt_from))) in
      minting _ _ _ _ _ _ _ _ t pd slot
      ∙ rw beside (elim (Bool-cases (base_output_notification_cap + channel_from == slot)) [
        | inl same ↦ rw same refl
        | inr differ ↦ rw differ refl
      ])
  routes-other t from to channel_from channel_to pd slot lt_from (inr other) =
      minting _ _ _ _ _ _ _ _ t pd slot
      ∙ rw (==_false (base_output_notification_cap + channel_from) slot other) refl

  -- The capability without a badge is not in a slot that is minted to.
  still_unbadged :
      (t : Trace) (from to channel_from channel_to pd : ℕ)
      → from < 64
      → channel_from < 31
      → HasUnbadged (routes t) pd
      → HasUnbadged (routes (invoked (mint from to channel_from channel_to) 0 ∷ t)) pd
  still_unbadged t from to channel_from channel_to pd lt_from lt_channel known =
      routes-other t from to channel_from channel_to pd _ lt_from
        (inr (λ p. omega (arith, p, lt_channel)))
      ∙ known

  -- Both ends of a channel, in the trace of the two calls.
  both :
      (t : Trace) (pd_a pd_b channel_a channel_b : ℕ)
      → pd_a < 64
      → pd_b < 64
      → channel_a < 31
      → HasUnbadged (routes t) pd_a
      → HasUnbadged (routes t) pd_b
      → routes
          (invoked (mint pd_b pd_a channel_b channel_a) 0
            ∷ invoked (mint pd_a pd_b channel_a channel_b) 0
            ∷ t)
          pd_a
          (base_output_notification_cap + channel_a)
        ≡ some (pd_b, 2 ^ channel_b)
  both t pd_a pd_b channel_a channel_b lt_a lt_b lt_ca known_a known_b =
      let first = routes-mint t pd_a pd_b channel_a channel_b lt_a lt_b known_b in
      let second =
        routes-mint (invoked (mint pd_a pd_b channel_a channel_b) 0 ∷ t) pd_b pd_a channel_b
          channel_a lt_b lt_a
          (still_unbadged t pd_a pd_b channel_a channel_b pd_a lt_a lt_ca known_a) in
      elim (Bool-cases (pd_b == pd_a)) [
        | inr other ↦
            routes-other (invoked (mint pd_a pd_b channel_a channel_b) 0 ∷ t) pd_b pd_a channel_b
              channel_a pd_a _ lt_b (inl (λ p. ground (arith, other, p)))
            ∙ first
        | inl same ↦ elim (Bool-cases (channel_b == channel_a)) [
          | inr other ↦
              routes-other (invoked (mint pd_a pd_b channel_a channel_b) 0 ∷ t) pd_b pd_a channel_b
                channel_a pd_a _ lt_b (inr (λ p. ground (arith, other, p)))
              ∙ first
          | inl same' ↦
              let p : pd_b ≡ pd_a = (==_iff _ _).0 same in
              let q : channel_b ≡ channel_a = (==_iff _ _).0 same' in cc (p, q, second)
        ]
      ]

-- What `sel4cp_notify` calls.
abbrev pub signal_on : ℕ → Call
signal_on ch = signal (u32 (base_output_notification_cap + ch))

module _ (channels_of : ℕ → List ℕ) where
  -- The PD at which a call of another one arrives, and the channels for which its `notified` runs.
  abbrev pub arrives : Route → (sender : ℕ) → Call → Option (ℕ × List ℕ)
  arrives route sender (signal slot) = Option.map (λ r. (r.0, channels_of r.1)) (route sender slot)
  arrives route sender _ = none

  -- A run that returns has connected the two ends. It ends with no error value, and crashes only
  -- with an answer of the kernel that is an error.
  abbrev pub Connects :
      (Trace → Route) → (pd_a pd_b channel_a channel_b : ℕ) → Run (Unit {0}) → Type 0
  Connects routes pd_a pd_b channel_a channel_b (ok _ v) =
      (arrives (routes v.trace) pd_a (signal_on channel_a) ≡ some (pd_b, channel_b ∷ []))
      × (arrives (routes v.trace) pd_b (signal_on channel_b) ≡ some (pd_a, channel_a ∷ []))
  Connects routes pd_a pd_b channel_a channel_b (fail v) = ⊥
  Connects routes pd_a pd_b channel_a channel_b (crash err v) = err ≢ 0
  Connects routes pd_a pd_b channel_a channel_b (out_of_fuel v) = ⊥

  module _ (single : (c : ℕ) → c < 64 → channels_of (2 ^ c) ≡ c ∷ []) (routes : Trace → Route)
      (minting : IsMinting routes) where
    arrives_at :
        (route : Route) (sender ch pd channel : ℕ)
        → ch < 31
        → channel < 31
        → route sender (base_output_notification_cap + ch) ≡ some (pd, 2 ^ channel)
        → arrives route sender (signal_on ch) ≡ some (pd, channel ∷ [])
    arrives_at route sender ch pd channel lt_ch lt_channel is =
        ap (λ slot. arrives route sender (signal slot))
          (exact base_output_notification_cap ch (omega arith) (omega (arith, lt_ch)))
        ∙ ap (Option.map (λ r. (r.0, channels_of r.1))) is
        ∙ ap (λ cs. some (pd, cs)) (single channel (omega (arith, lt_channel)))

    -- Where notified runs for the channel of a badge with one bit, minting does what the kernel
    -- documents, each of the two PDs has the unbadged capability to its own notification in its
    -- slot for that, and identifiers of PDs are below 64 and those of channels below 31: after
    -- sel4cp_internal_set_up_channel, what either PD notifies on its channel arrives at the
    -- other one as that one's channel. It never returns an error value, and crashes only if the
    -- kernel answers with an error.
    pub set_up_channel-Connects :
        (e : Env) (w : World) (pd_a pd_b channel_a channel_b : ℕ)
        → pd_a < 64
        → pd_b < 64
        → channel_a < 31
        → channel_b < 31
        → HasUnbadged (routes w.trace) pd_a
        → HasUnbadged (routes w.trace) pd_b
        → Connects routes pd_a pd_b channel_a channel_b
            (set_up_channel pd_a pd_b channel_a channel_b e w)
    unfolding set_up_channel ◌>>=◌
    set_up_channel-Connects e w pd_a pd_b channel_a channel_b lt_a lt_b lt_ca lt_cb known_a
          known_b =
        first (mint_channel pd_a pd_b channel_a channel_b e w)
          (mint_channel-Insisted e w pd_a pd_b channel_a channel_b lt_cb)
      where
        connected : Trace
        connected =
            invoked (mint pd_b pd_a channel_b channel_a) 0
            ∷ invoked (mint pd_a pd_b channel_a channel_b) 0
            ∷ w.trace

        second :
            (r : Run (Unit {0}))
            → Insisted
                (mint pd_b pd_a channel_b channel_a)
                (said (mint pd_a pd_b channel_a channel_b) 0 w)
                r
            → Connects routes pd_a pd_b channel_a channel_b r
        second (ok _ v) is = rw is (
          arrives_at (routes connected) pd_a channel_a pd_b channel_b lt_ca lt_cb (
              both routes minting w.trace pd_a pd_b channel_a channel_b lt_a lt_b lt_ca known_a
                known_b),
          arrives_at (routes connected) pd_b channel_b pd_a channel_a lt_cb lt_ca (
              routes-mint routes minting (invoked (mint pd_a pd_b channel_a channel_b) 0 ∷ w.trace)
                pd_b pd_a channel_b channel_a lt_b lt_a
                (still_unbadged routes minting w.trace pd_a pd_b channel_a channel_b pd_a lt_a lt_ca
                  known_a)),
        )
        second (fail v) is = is
        second (crash err v) is = is
        second (out_of_fuel v) is = is

        first :
            (r : Run (Unit {0}))
            → Insisted (mint pd_a pd_b channel_a channel_b) w r
            → Connects routes pd_a pd_b channel_a channel_b
                (and_then r (λ _. mint_channel pd_b pd_a channel_b channel_a e))
        first (ok _ v) is =
            second (mint_channel pd_b pd_a channel_b channel_a e v)
              (rw is (mint_channel-Insisted e _ pd_b pd_a channel_b channel_a lt_ca))
        first (fail v) is = is
        first (crash err v) is = is
        first (out_of_fuel v) is = is
