-- ===== src/DbWorker/Run/Poison.antt =====
-- An event that can never be applied.
use predix_go_backend.Base.{
  ℕ, suc, ◌≡◌, ◌≢◌, refl, sym, ap, ◌∙◌, String, Bool, true, false, Option, none, some, List, [],
  ◌∷◌, ◌++◌, Bool-cases, Option-cases, inl, inr,
}
use mathlib.Core.List.{append_assoc, append-nil}
use predix_go_backend.Engine.Types.{Order}
use predix_go_backend.Engine.Emit.{Envelope, EventType, order_data}
use predix_go_backend.DbWorker.Database.{Db, Faults}
use predix_go_backend.DbWorker.{
  Token, fencing_decision, handle_event, handle_order_created, parse_order, handle_envelope,
}
use predix_go_backend.DbWorker.Run.{
  RawEvent, event, Outside, Progress, process_event_entry, process_event_entries,
}
use predix_go_backend.DbWorker.Run.Prefix.{
  ids, process_event_entry-acked, process_event_entries-on, process_event_entries-ended,
}

-- The announcement of an order whose id is no UUID.
abbrev pub IsPoison : (String → Option String) → Envelope → Order → Type 0
IsPoison parse env o =
    (env.event_type ≡ EventType.order_created) × (env.payload ≡ order_data o) × (parse o.id ≡ none)

parse_order-none :
    (parse : String → Option String) (o : Order) → parse o.id ≡ none → parse_order parse o ≡ none
unfolding parse_order
parse_order-none parse o e = rw (parse_order, e) refl

handle_envelope-poison :
    (parse : String → Option String) (fails : Faults) (token : Token) (env : Envelope) (o : Order)
    (db : Db)
    → IsPoison parse env o
    → fencing_decision token env ≢ some true
    → (handle_envelope parse fails token env db).0 ≡ false
unfolding handle_envelope handle_event handle_order_created
handle_envelope-poison parse fails token env o db (kind, carried, bad) fresh =
    elim (Option-cases (fencing_decision token env)) [
      | inl unknown ↦ rw (handle_envelope, unknown) refl
      | inr (true, stale) ↦ absurd (fresh stale)
      | inr (false, live) ↦
          rw
            (
              handle_envelope,
              live,
              kind,
              carried,
              handle_event,
              handle_order_created,
              parse_order-none parse o bad,
            )
            refl
    ]

process_event_entry-poison :
    (parse : String → Option String) (out : Outside) (id : String) (env : Envelope) (o : Order)
    (s : Progress)
    → IsPoison parse env o
    → fencing_decision out.token env ≢ some true
    → (process_event_entry parse out id (event env) s).0 ≡ false
unfolding process_event_entry
process_event_entry-poison parse out id env o s bad fresh =
    rw (process_event_entry, handle_envelope-poison parse out.fails out.token env o s.db bad fresh)
      refl

-- What a run that meets a poison has done: it has failed, and acknowledged only events before it.
pub record IsStuck (before : List (String × RawEvent)) (s : Progress) (r : Bool × Progress)
    : Type 0 where
  pub failed : r.0 ≡ false
  pub done : List (String × RawEvent)
  pub missed : List (String × RawEvent)
  pub split : before ≡ done ++ missed
  pub acked : r.1.acked ≡ s.acked ++ ids done

pub process_event_entries-IsStuck :
    (parse : String → Option String) (outs : ℕ → Outside) (i : ℕ)
    (before after : List (String × RawEvent)) (id : String) (env : Envelope) (o : Order)
    (s : Progress)
    → IsPoison parse env o
    → ((j : ℕ) → fencing_decision (outs j).token env ≢ some true)
    → IsStuck before s (process_event_entries parse outs i (before ++ (id, event env) ∷ after) s)
process_event_entries-IsStuck parse outs i [] after id env o s bad fresh =
    let ends = process_event_entry-poison parse (outs i) id env o s bad (fresh i) in
    rw (process_event_entries-ended parse outs i id (event env) after s ends) (record {
      failed = refl;
      done = [];
      missed = [];
      split = refl;
      acked =
          process_event_entry-acked parse (outs i) id s (event env)
          ∙ rw ends (sym (append-nil s.acked));
    })
process_event_entries-IsStuck parse outs i ((j, raw) ∷ before) after id env o s bad fresh =
    elim (Bool-cases (process_event_entry parse (outs i) j raw s).0) [
      | inr ended ↦
          rw
            (process_event_entries-ended parse outs i j raw (before ++ (id, event env) ∷ after) s
              ended)
            (record {
              failed = refl;
              done = [];
              missed = (j, raw) ∷ before;
              split = refl;
              acked =
                  process_event_entry-acked parse (outs i) j s raw
                  ∙ rw ended (sym (append-nil s.acked));
            })
      | inl on ↦
          let s' : Progress = (process_event_entry parse (outs i) j raw s).1 in
          let k =
            process_event_entries-IsStuck parse outs (suc i) before after id env o s' bad fresh in
          rw (process_event_entries-on parse outs i j raw (before ++ (id, event env) ∷ after) s on)
            (record {
              failed = k.failed;
              done = (j, raw) ∷ k.done;
              missed = k.missed;
              split = ap (λ (l : List (String × RawEvent)). (j, raw) ∷ l) k.split;
              acked =
                  k.acked
                  ∙ ap (λ (l : List String). l ++ ids k.done)
                      (process_event_entry-acked parse (outs i) j s raw ∙ rw on refl)
                  ∙ append_assoc s.acked (j ∷ []) (ids k.done);
            })
    ]
