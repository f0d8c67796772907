-- ===== src/Engine/Emit/Outbox.antt =====
-- The outbox: what it holds after an emission, and what a recovery sends.
use predix_go_backend.Base.{
  ℕ, suc, ◌≡◌, refl, sym, ap, ◌∙◌, ◌⊎◌, inl, inr, Bool, true, false, not, ◌&&◌, List, [], ◌∷◌, ◌++◌,
  if◌then◌else◌, arith, Bool-cases,
}
use mathlib.Core.List.{append-nil, append_assoc}
use predix_go_backend.Engine.Emit.{
  Bus, Delivery, Envelope, EventType, EventData, new_envelope, bump_seq, append_journal, xadd,
  publish, reset_journal, emit_event, is_trade, republish, republish_all, recover_lines, recover,
}

-- The envelope is at the end of the durable stream; or the emission reports a failure, the envelope
-- is at the end of the outbox, and the stream is as it was.
abbrev pub Kept : Envelope → Bus → Bool × Bus → Type 0
Kept env bus r =
    (r.1.stream ≡ bus.stream ++ env ∷ [])
    ⊎ ((r.0 ≡ false) × (r.1.journal ≡ bus.journal ++ env ∷ []) × (r.1.stream ≡ bus.stream))

pub emit_event-Kept :
    (d : Delivery) (pid : ℕ) (kind : EventType) (x : EventData) (broadcast : Bool) (bus : Bus)
    → bus.replaying pid ≡ false
    → d.append_ok ≡ true
    → Kept (new_envelope d bus pid kind x) bus (emit_event d pid kind x broadcast bus)
unfolding emit_event bump_seq append_journal xadd publish reset_journal
emit_event-Kept d pid kind x broadcast bus live appended = elim (Bool-cases d.xadd_ok) [
  | inl sent ↦ elim (Bool-cases (broadcast && not d.publish_ok)) [
    | inl silent ↦ inl (rw (live, appended, sent, silent) refl)
    | inr heard ↦ inl (elim (Bool-cases d.reset_ok) [
      | inl cleared ↦ elim (Bool-cases broadcast) [ inl b ↦ ground arith | inr b ↦ ground arith ]
      | inr left ↦ ground arith
    ])
  ]
  | inr unsent ↦ inr (rw (live, appended, unsent) (refl, refl, refl))
]

-- An emission that succeeds while the partition is not replaying, and whose reset of the outbox
-- works, leaves the outbox empty and adds its own envelope alone to the durable stream: whatever
-- envelopes earlier failures left in the outbox are dropped, and not sent.
pub emit_event_drops_pending :
    (d : Delivery) (pid : ℕ) (kind : EventType) (x : EventData) (broadcast : Bool) (bus : Bus)
    → bus.replaying pid ≡ false
    → (emit_event d pid kind x broadcast bus).0 ≡ true
    → d.reset_ok ≡ true
    → ((emit_event d pid kind x broadcast bus).1.journal ≡ [])
      × ((emit_event d pid kind x broadcast bus).1.stream
          ≡ bus.stream ++ new_envelope d bus pid kind x ∷ [])
unfolding emit_event bump_seq append_journal xadd publish reset_journal
emit_event_drops_pending d pid kind x broadcast bus live ok cleared = ground arith

-- The trades of the envelopes, which are broadcast again.
abbrev pub trades_of : List Envelope → List Envelope
trades_of [] = []
trades_of (env ∷ envs) = if is_trade env.event_type then env ∷ trades_of envs else trades_of envs

-- What a recovery did: a first part of the outbox is at the end of the stream. Either that is all of
-- it, in order, its trades are at the end of the channel and the outbox is empty; or the outbox is
-- as it was.
abbrev pub Recovered : Bus → Bool × Bus → Type 0
Recovered bus r =
    (sent : List Envelope) × (unsent : List Envelope) × (bus.journal ≡ sent ++ unsent)
    × (r.1.stream ≡ bus.stream ++ sent)
    × (((r.0 ≡ true)
          × (unsent ≡ [])
          × (r.1.channel ≡ bus.channel ++ trades_of sent)
          × (r.1.journal ≡ []))
        ⊎ ((r.0 ≡ false) × (r.1.journal ≡ bus.journal)))

abbrev pub Resent : List Envelope → Bus → Bool × Bus → Type 0
Resent envs bus r =
    (sent : List Envelope) × (unsent : List Envelope) × (envs ≡ sent ++ unsent)
    × (r.1.stream ≡ bus.stream ++ sent)
    × (r.1.journal ≡ bus.journal)
    × (((r.0 ≡ true) × (unsent ≡ []) × (r.1.channel ≡ bus.channel ++ trades_of sent))
        ⊎ (r.0 ≡ false))

-- One envelope went to the stream and, if it is a trade's, to the channel; or to the stream alone,
-- or nowhere, and the step failed.
abbrev pub StepResent : Envelope → Bus → Bool × Bus → Type 0
StepResent env bus r =
    (r.1.journal ≡ bus.journal)
    × (((r.0 ≡ true)
          × (r.1.stream ≡ bus.stream ++ env ∷ [])
          × (r.1.channel ≡ bus.channel ++ trades_of (env ∷ [])))
        ⊎ ((r.0 ≡ false) × ((r.1.stream ≡ bus.stream ++ env ∷ []) ⊎ (r.1.stream ≡ bus.stream))))

republish-StepResent :
    (d : Delivery) (env : Envelope) (bus : Bus) → StepResent env bus (republish d env bus)
unfolding republish xadd publish
republish-StepResent d env bus = elim (Bool-cases d.xadd_ok) [
  | inr down ↦ rw down (refl, inr (refl, inr refl))
  | inl up ↦ elim (Bool-cases (is_trade env.event_type)) [
    | inl trade ↦ elim (Bool-cases d.publish_ok) [
      | inl heard ↦ rw (up, trade, heard) (refl, inl (refl, refl, refl))
      | inr silent ↦ rw (up, trade, silent) (refl, inr (refl, inl refl))
    ]
    | inr other ↦ rw (up, other) (refl, inl (refl, refl, sym (append-nil bus.channel)))
  ]
]

trades_of-cons :
    (env : Envelope) (envs : List Envelope)
    → trades_of (env ∷ envs) ≡ trades_of (env ∷ []) ++ trades_of envs
trades_of-cons env envs = elim (Bool-cases (is_trade env.event_type)) [
  | inl trade ↦ rw trade refl
  | inr other ↦ rw other refl
]

republish_all-Resent :
    (d : ℕ → Delivery) (i : ℕ) (envs : List Envelope) (bus : Bus)
    → Resent envs bus (republish_all d i envs bus)
unfolding republish_all
republish_all-Resent d i [] bus = (
  [],
  [],
  refl,
  sym (append-nil bus.stream),
  refl,
  inl (refl, refl, sym (append-nil bus.channel)),
)
republish_all-Resent d i (env ∷ envs) bus =
    let step = republish-StepResent (d i) env bus in
    elim step.1 [
      | inl (ok, streamed, heard) ↦
          let (sent, unsent, split, stream, journal, end) =
            republish_all-Resent d (suc i) envs (republish (d i) env bus).1 in
          rw ok (
            env ∷ sent,
            unsent,
            ap (λ (l : List Envelope). env ∷ l) split,
            stream
                ∙ ap (λ (l : List Envelope). l ++ sent) streamed
                ∙ append_assoc bus.stream (env ∷ []) sent,
            journal ∙ step.0,
            elim end [
              | inl (done, all, channel) ↦ inl (
                done,
                all,
                channel
                    ∙ ap (λ (l : List Envelope). l ++ trades_of sent) heard
                    ∙ append_assoc bus.channel (trades_of (env ∷ [])) (trades_of sent)
                    ∙ ap (λ (l : List Envelope). bus.channel ++ l) (sym (trades_of-cons env sent)),
              )
              | inr failed ↦ inr failed
            ],
          )
      | inr (failed, inl streamed) ↦ rw failed (env ∷ [], envs, refl, streamed, step.0, inr refl)
      | inr (failed, inr unchanged) ↦
          rw failed
            ([], env ∷ envs, refl, unchanged ∙ sym (append-nil bus.stream), step.0, inr refl)
    ]

pub recover-Recovered :
    (d : ℕ → Delivery) (last : Delivery) (bus : Bus) → Recovered bus (recover d last bus)
unfolding recover recover_lines reset_journal
recover-Recovered d last bus = recovered bus.journal refl
  where
    recovered :
        (envs : List Envelope) → bus.journal ≡ envs → Recovered bus (recover_lines d last envs bus)
    recovered [] empty = (
      [],
      [],
      empty,
      sym (append-nil bus.stream),
      inl (refl, refl, sym (append-nil bus.channel), empty),
    )
    recovered (env ∷ envs) pending =
        let (sent, unsent, split, stream, journal, end) =
          republish_all-Resent d 0 (env ∷ envs) bus in
        elim end [
          | inr failed ↦ rw failed (sent, unsent, pending ∙ split, stream, inr (refl, journal))
          | inl (done, all, channel) ↦ elim (Bool-cases last.reset_ok) [
            | inl cleared ↦
                rw (done, cleared)
                  (sent, unsent, pending ∙ split, stream, inl (refl, all, channel, refl))
            | inr left ↦
                rw (done, left) (sent, unsent, pending ∙ split, stream, inr (refl, journal))
          ]
        ]
