-- ===== src/DbWorker/Examples.antt =====
-- The database worker on a trade between two users.
use predix_go_backend.Base.{
  ◌<◌, ◌≤◌, ◌≡◌, ◌≢◌, refl, ◌⊎◌, String, true, false, Option, some, [], ◌∷◌, arith, pos, mul64,
}
use predix_go_backend.Dict.{lookup, insert}
use predix_go_backend.Engine.Types.{Order, Trade, side_buy, side_sell}
use predix_go_backend.Engine.Ledger.{position_key}
use predix_go_backend.Engine.Matching.{take_fill, close_fill}
use predix_go_backend.Engine.Emit.{Envelope, EventType, trade_data}
use predix_go_backend.Engine.Examples.{sample_order, sample_trade}
use predix_go_backend.Engine.Examples.Books.{sample_order-IsConserved}
use predix_go_backend.DbWorker.Database.{
  Db, Faults, fill_row, apply_order_fill, deduct_balance, add_balance, upsert_position,
  insert_transaction, increment_event_volume, insert_trade, insert_order, plus, minus,
}
use predix_go_backend.DbWorker.{
  order_row, settle_trade, handle_order_created, parse_ids, parse_order, settle_writes,
  settle_fills, settle_cash, settle_positions, settle_records, handle_envelope, handle_event, held,
}
use predix_go_backend.DbWorker.Settlement.{Conserves, settle_trade-Conserves}
use predix_go_backend.DbWorker.Redelivery.{settle_trade_again, handle_order_created_again}
use predix_go_backend.DbWorker.Fills.{fill_row-order_row}
use predix_go_backend.DbWorker.Fencing.{handle_envelope_fenced}

-- Ids are taken as they are.
abbrev parse : String → Option String
parse s = some s

abbrev pub no_faults : Faults
no_faults query = false

abbrev pub sample_db : Db
sample_db = record {
  users = ("alice", pos 100) ∷ ("carol", pos 5) ∷ [];
  orders =
      ("b1", order_row "E" "alice" (sample_order "b1" "alice" side_buy 7 10))
      ∷ ("s2", order_row "E" "carol" (sample_order "s2" "carol" side_sell 4 8))
      ∷ [];
  trades = [];
  positions = [];
  transactions = [];
  volumes = ("E", pos 0) ∷ [];
}

abbrev the_trade : Trade
the_trade = sample_trade "s2" "carol" 4 8 0

settle_trade-Conserves_example :
    Conserves sample_db (settle_trade parse no_faults the_trade sample_db)
settle_trade-Conserves_example =
    settle_trade-Conserves parse no_faults the_trade sample_db (refl, omega arith)

-- Alice pays Carol 32 for 4 shares.
settled :
    (settle_trade parse no_faults the_trade sample_db).1.users
    ≡ ("alice", pos 68) ∷ ("carol", pos 37) ∷ []
unfolding settle_trade settle_writes settle_fills settle_cash settle_positions settle_records
    apply_order_fill deduct_balance add_balance upsert_position insert_transaction
    increment_event_volume insert_trade parse_ids lookup insert fill_row plus minus mul64
    position_key
settled = refl

abbrev settled_db : Db
settled_db = (settle_trade parse no_faults the_trade sample_db).1

settled_run : settle_trade parse no_faults the_trade sample_db ≡ (true, settled_db)
unfolding settle_trade settle_writes settle_fills settle_cash settle_positions settle_records
    apply_order_fill deduct_balance add_balance upsert_position insert_transaction
    increment_event_volume insert_trade parse_ids lookup insert fill_row plus minus mul64
    position_key
settled_run = refl

settle_trade_again_example : (settle_trade parse no_faults the_trade settled_db).1 ≡ settled_db
settle_trade_again_example =
    settle_trade_again parse no_faults no_faults the_trade sample_db settled_db settled_run

abbrev pub the_order : Order
the_order = sample_order "b9" "alice" side_buy 3 10

abbrev announced_db : Db
announced_db = (handle_order_created parse no_faults the_order sample_db).1

announced_run : handle_order_created parse no_faults the_order sample_db ≡ (true, announced_db)
unfolding handle_order_created parse_order insert_order lookup insert
announced_run = refl

handle_order_created_again_example :
    (handle_order_created parse no_faults the_order announced_db).1 ≡ announced_db
handle_order_created_again_example =
    handle_order_created_again parse no_faults no_faults the_order sample_db announced_db
      announced_run

fill_row-order_row_example :
    fill_row (pos 3) (order_row "E" "carol" (sample_order "s2" "carol" side_sell 4 8))
    ≡ order_row "E" "carol"
        (close_fill (take_fill (pos 3) (sample_order "s2" "carol" side_sell 4 8)))
fill_row-order_row_example =
    fill_row-order_row "E" "carol" (pos 3) (sample_order "s2" "carol" side_sell 4 8)
      (sample_order-IsConserved "s2" "carol" side_sell 4 8 (omega arith)) (refl, omega arith)
      (omega arith)

-- From an engine whose token 1 has been overtaken.
abbrev stale : Envelope
stale = record {
  id = "e";
  event_type = EventType.trade_executed;
  partition_id = 0;
  fencing_token = 1;
  sequence = 1;
  created_at = 0;
  payload = trade_data the_trade;
}

handle_envelope_fenced_example :
    ((stale.fencing_token ≢ 0)
      × (1 < 2)
      × (handle_envelope parse no_faults (held 2) stale sample_db ≡ (true, sample_db)))
    ⊎ (((stale.fencing_token ≡ 0) ⊎ (2 ≤ 1))
        × (handle_envelope parse no_faults (held 2) stale sample_db
            ≡ handle_event parse no_faults EventType.trade_executed
                (trade_data the_trade)
                sample_db))
handle_envelope_fenced_example = handle_envelope_fenced parse no_faults 2 stale sample_db
