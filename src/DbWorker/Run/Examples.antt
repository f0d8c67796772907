-- ===== src/DbWorker/Run/Examples.antt =====
-- A worker that gets the announcement of an order, and then that of an order whose id is no UUID.
use predix_go_backend.Base.{
  ℕ, ◌≢◌, refl, String, true, Option, none, some, List, [], ◌∷◌, ◌++◌, ◌==◌, string_eq,
  if◌then◌else◌,
}
use predix_go_backend.Engine.Types.{Order}
use predix_go_backend.Engine.Emit.{Envelope, EventType, order_data}
use predix_go_backend.DbWorker.{missing, fencing_decision}
use predix_go_backend.DbWorker.Run.{
  RawEvent, event, garbled, Outside, Progress, delivered, failed, canceled, process_event_entries,
  run_worker,
}
use predix_go_backend.DbWorker.Run.Prefix.{IsProgress, run_worker-IsProgress}
use predix_go_backend.DbWorker.Run.Poison.{IsStuck, process_event_entries-IsStuck}
use predix_go_backend.DbWorker.Examples.{sample_db, no_faults, the_order}

abbrev parse_uuid : String → Option String
parse_uuid id = if id == "my order" then none else some id

abbrev bad_order : Order
bad_order = record the_order { id = "my order" }

abbrev announcement : Order → Envelope
announcement o = record {
  id = "e";
  event_type = EventType.order_created;
  partition_id = 0;
  fencing_token = 1;
  sequence = 1;
  created_at = 0;
  payload = order_data o;
}

abbrev up : ℕ → Outside
up i = record { fails = no_faults; token = missing; ack_ok = true }

abbrev at_start : Progress
at_start = record { db = sample_db; acked = [] }

abbrev first_event : List (String × RawEvent)
first_event = ("1-0", event (announcement the_order)) ∷ []

run_worker-IsProgress_example :
    IsProgress parse_uuid up 0 (first_event ++ ("2-0", garbled) ∷ []) at_start (
      run_worker parse_uuid up true first_event
        (failed ∷ delivered (("2-0", garbled) ∷ []) ∷ canceled ∷ [])
        at_start)
run_worker-IsProgress_example =
    run_worker-IsProgress parse_uuid up first_event
      (failed ∷ delivered (("2-0", garbled) ∷ []) ∷ canceled ∷ []) at_start

never_stale : (j : ℕ) → fencing_decision (up j).token (announcement bad_order) ≢ some true
unfolding fencing_decision
never_stale j e = cc

process_event_entries-IsStuck_example : IsStuck first_event at_start (
    process_event_entries parse_uuid up 0
      (first_event ++ ("2-0", event (announcement bad_order)) ∷ ("3-0", garbled) ∷ [])
      at_start)
process_event_entries-IsStuck_example =
    process_event_entries-IsStuck parse_uuid up 0 first_event (("3-0", garbled) ∷ []) "2-0"
      (announcement bad_order) bad_order at_start (refl, refl, refl) never_stale
