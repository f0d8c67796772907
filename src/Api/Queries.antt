-- ===== src/Api/Queries.antt =====
-- The rows that the handlers of internal/handler read and write, and their queries of
-- internal/repository. The volume of an event is in the worker's tables, which also hold the orders.
use predix_go_backend.Base.{
  ℕ, String, Bool, true, false, Option, none, some, [], ◌∷◌, ◌==◌, string_eq, if◌then◌else◌, ℤ, pos,
}
use predix_go_backend.Dict.{Dict, lookup, insert, erase}
use predix_go_backend.Engine.Types.{Trade}
use predix_go_backend.DbWorker.Database.{Db, OrderRow, exists}

pub record EventRow : Type 0 where
  pub title : String
  pub description : String
  pub question : String
  pub thumbnail : String
  -- A nullable column.
  pub is_active : Option Bool
  pub expires_at : ℕ

pub record UserRow : Type 0 where
  pub id : String
  pub email : String
  pub password_hash : String

-- Events by id, users by email.
pub record Tables : Type 0 where
  pub events : Dict EventRow
  pub users : Dict UserRow
  pub db : Db

-- A query that fails finds nothing.
unfoldable pub get_event_by_id : Bool → String → Tables → Option EventRow
get_event_by_id fails id t = if fails then none else lookup id t.events

unfoldable pub get_order_by_id : Bool → String → Tables → Option OrderRow
get_order_by_id fails id t = if fails then none else lookup id t.db.orders

unfoldable pub get_user_by_email : Bool → String → Tables → Option UserRow
get_user_by_email fails email t = if fails then none else lookup email t.users

-- A new row, under the id that the database makes for it.
unfoldable pub create_event_row : Bool → String → EventRow → Tables → Option Tables
create_event_row fails id row t =
    if fails
    then none
    else some (record t {
      events = insert id row t.events;
      db = record (t.db) { volumes = insert id (pos 0) t.db.volumes };
    })

-- The orders of an event go with it.
unfoldable pub drop_orders : String → Dict OrderRow → Dict OrderRow
drop_orders event [] = []
drop_orders event ((id, row) ∷ rows) =
    let rest = drop_orders event rows in if row.event_id == event then rest else (id, row) ∷ rest

unfoldable pub has_trade : String → Dict Trade → Bool
has_trade event [] = false
has_trade event ((id, t) ∷ ts) = if t.event_id == event then true else has_trade event ts

-- An event that trades refer to stays.
unfoldable pub delete_event : Bool → String → Tables → Tables
unfolding drop_orders has_trade
delete_event fails id t = if fails then t else if has_trade id t.db.trades then t else record t {
  events = erase id t.events;
  db = record (t.db) { volumes = erase id t.db.volumes; orders = drop_orders id t.db.orders };
}

-- 100.0000, the default of the balance column.
abbrev pub default_balance : ℤ
default_balance = pos 1000000

-- The email is unique.
unfoldable pub create_user : Bool → UserRow → Tables → Option Tables
create_user fails row t =
    if fails
    then none
    else if exists (lookup row.email t.users)
    then none
    else some (record t {
      users = insert row.email row t.users;
      db = record (t.db) { users = insert row.id default_balance t.db.users };
    })
