-- ===== src/DbWorker/Run.antt =====
-- `Run` and `processStreamEntry` of internal/dbworker/worker.go: events in order, each acknowledged
-- once it is applied, up to the first that fails. What Redis gives and the database's faults are an
-- argument, with the i-th `Outside` for the i-th event.
pub mod Prefix
pub mod Poison
pub mod Examples
use predix_go_backend.Base.{
  ℕ, suc, ◌+◌, String, Bool, true, false, not, Option, none, some, List, [], ◌∷◌, ◌++◌,
  if◌then◌else◌, length,
}
use predix_go_backend.Engine.Emit.{Envelope}
use predix_go_backend.DbWorker.Database.{Db, Faults}
use predix_go_backend.DbWorker.{Token, handle_envelope}

-- The `event` of an entry: no JSON of an envelope, or an envelope.
pub data RawEvent : Type 0 where
  garbled : RawEvent
  event : Envelope → RawEvent

pub record Outside : Type 0 where
  pub fails : Faults
  pub token : Token
  pub ack_ok : Bool

pub record Progress : Type 0 where
  pub db : Db
  pub acked : List String

-- Whether the worker goes on, and where it is then.
unfoldable pub process_event_entry :
    (String → Option String) → Outside → String → RawEvent → Progress → Bool × Progress
process_event_entry parse o id garbled s = (false, s)
process_event_entry parse o id (event env) s =
    let (ok, db) = handle_envelope parse o.fails o.token env s.db in
    if not ok
    then (false, record s { db = db })
    else if o.ack_ok
    then (true, record { db = db; acked = s.acked ++ id ∷ [] })
    else (false, record s { db = db })

unfoldable pub process_event_entries :
    (String → Option String)
    → (ℕ → Outside)
    → ℕ
    → List (String × RawEvent)
    → Progress
    → Bool × Progress
unfolding process_event_entry
process_event_entries parse outs i [] s = (true, s)
process_event_entries parse outs i ((id, raw) ∷ es) s =
    let (ok, s') = process_event_entry parse (outs i) id raw s in
    let later = process_event_entries parse outs (suc i) es s' in if ok then later else (false, s')

-- One blocking read: events, or an error after which it is tried again, or the end of the context.
pub data EventRead : Type 0 where
  delivered : List (String × RawEvent) → EventRead
  failed canceled : EventRead

unfoldable pub run_reads :
    (String → Option String) → (ℕ → Outside) → ℕ → List EventRead → Progress → Bool × Progress
unfolding process_event_entries
run_reads parse outs i [] s = (true, s)
run_reads parse outs i (canceled ∷ reads) s = (true, s)
run_reads parse outs i (failed ∷ reads) s = run_reads parse outs i reads s
run_reads parse outs i (delivered es ∷ reads) s =
    let (ok, s') = process_event_entries parse outs i es s in
    let later = run_reads parse outs (i + length es) reads s' in if ok then later else (false, s')

-- Events that a crashed worker left pending come first. Without its group the worker ends at once.
unfoldable pub run_worker :
    (String → Option String)
    → (ℕ → Outside)
    → Bool
    → List (String × RawEvent)
    → List EventRead
    → Progress
    → Bool × Progress
unfolding run_reads
run_worker parse outs group_ok claimed reads s =
    if group_ok then run_reads parse outs 0 (delivered claimed ∷ reads) s else (false, s)
