-- ===== src/DbWorker/Fencing.antt =====
-- The fence: a token of the past writes nothing.
use predix_go_backend.Base.{
  ℕ, ◌<◌, ◌≤◌, ◌≡◌, ◌≢◌, refl, String, true, Option, arith, nat_eq, ◌⊎◌, inl, inr, Bool-cases,
}
use predix_go_backend.Engine.Emit.{Envelope}
use predix_go_backend.DbWorker.Database.{Db, Faults}
use predix_go_backend.DbWorker.{
  held, fencing_stale, fencing_decision, handle_event, handle_envelope,
}

pub handle_envelope_fenced :
    (parse : String → Option String) (fails : Faults) (current : ℕ) (env : Envelope) (db : Db)
    → ((env.fencing_token ≢ 0)
        × (env.fencing_token < current)
        × (handle_envelope parse fails (held current) env db ≡ (true, db)))
      ⊎ (((env.fencing_token ≡ 0) ⊎ (current ≤ env.fencing_token))
          × (handle_envelope parse fails (held current) env db
              ≡ handle_event parse fails env.event_type env.payload db))
unfolding handle_envelope fencing_decision fencing_stale
handle_envelope_fenced parse fails current env db =
    elim (Bool-cases (fencing_stale env.fencing_token current)) [
      | inl stale ↦
          inl (ground arith, ground arith, rw (handle_envelope, fencing_decision, stale) refl)
      | inr fine ↦ inr (ground arith, rw (handle_envelope, fencing_decision, fine) refl)
    ]
