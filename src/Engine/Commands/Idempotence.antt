-- ===== src/Engine/Commands/Idempotence.antt =====
-- Commands that are delivered again: a known order, event or user is left alone.
use predix_go_backend.Base.{
  ℕ, ◌≡◌, refl, ◌∙◌, beq_refl, String, false, none, some, ◌==◌, string_eq, Bool-cases, Option-cases,
  inl, inr, ◌⊎◌, pos, leb_ℤ,
}
use predix_go_backend.Dict.{lookup, insert, lookup-insert}
use predix_go_backend.Engine.Types.{Market, Balance, new_market, default_starting_balance}
use predix_go_backend.Engine.Ledger.{Ledger, grant_balance}
use predix_go_backend.Engine.Commands.{
  Engine, World, success, failure, already_exists, created, existing, user_ok, CreateRequest,
  new_order, validate_order, admit_order, handle_create_event, handle_user_created,
  handle_create_order,
}

abbrev starting_balance : Balance
starting_balance = record { available = default_starting_balance; reserved = pos 0 }

abbrev granted : String → Engine → Ledger
granted user e = record (e.core.ledger) {
  balances = insert user starting_balance e.core.ledger.balances;
}

pub handle_create_order_known :
    (w : World) (pid p : ℕ) (q : CreateRequest) (e : Engine)
    → (q.order_id == "") ≡ false
    → lookup q.order_id e.core.orders ≡ some p
    → (handle_create_order w pid (some q) e
        ≡ some (success (existing (e.core.heap p).id (e.core.heap p).status), e))
      ⊎ ((message : String) × (handle_create_order w pid (some q) e ≡ some (failure message, e)))
unfolding handle_create_order admit_order new_order
handle_create_order_known w pid p q e named stored = elim (Bool-cases (leb_ℤ q.quantity (pos 0))) [
  | inl nothing ↦ inr ("quantity must be greater than zero", rw nothing refl)
  | inr some_quantity ↦ elim (Option-cases (validate_order (new_order w q))) [
    | inr (message, bad) ↦ inr (message, rw (some_quantity, bad) refl)
    | inl good ↦ inl (rw (some_quantity, good, named, stored) refl)
  ]
]

module _ (id : String) (e : Engine) (named : (id == "") ≡ false) where
  handle_create_event-known :
      (m : Market)
      → lookup id e.core.markets ≡ some m
      → handle_create_event (some id) e ≡ (success already_exists, e)
  unfolding handle_create_event
  handle_create_event-known m old = rw (named, old) refl

  handle_create_event-fresh :
      lookup id e.core.markets ≡ none
      → handle_create_event (some id) e ≡ (
        success created,
        record e { core = record (e.core) { markets = insert id new_market e.core.markets } },
      )
  unfolding handle_create_event
  handle_create_event-fresh fresh = rw (named, fresh) refl

  handle_user_created-known :
      (b : Balance)
      → lookup id e.core.ledger.balances ≡ some b
      → handle_user_created (some id) e ≡ (success user_ok, e)
  unfolding handle_user_created grant_balance
  handle_user_created-known b old = rw (named, grant_balance, old) refl

  handle_user_created-fresh :
      lookup id e.core.ledger.balances ≡ none
      → handle_user_created (some id) e
        ≡ (success user_ok, record e { core = record (e.core) { ledger = granted id e } })
  unfolding handle_user_created grant_balance
  handle_user_created-fresh fresh = rw (named, grant_balance, fresh) refl

-- Creating an event that the engine has just created, or had before, changes nothing and answers
-- that it exists; the event id is not empty.
pub handle_create_event_twice :
    (event_id : String) (e : Engine)
    → (event_id == "") ≡ false
    → let e' : Engine = (handle_create_event (some event_id) e).1 in
      handle_create_event (some event_id) e' ≡ (success already_exists, e')
handle_create_event_twice id e named = elim (Option-cases (lookup id e.core.markets)) [
  | inr (m, old) ↦ let first = handle_create_event-known id e named m old in rw first first
  | inl fresh ↦
      let first = handle_create_event-fresh id e named fresh in
      rw first (
        handle_create_event-known id _ named new_market
          (lookup-insert id id new_market e.core.markets ∙ rw (beq_refl id) refl))
]

-- A user who is announced twice is granted the starting balance once: the second announcement
-- succeeds and changes nothing; the user id is not empty.
pub handle_user_created_twice :
    (user_id : String) (e : Engine)
    → (user_id == "") ≡ false
    → let e' : Engine = (handle_user_created (some user_id) e).1 in
      handle_user_created (some user_id) e' ≡ (success user_ok, e')
handle_user_created_twice user e named = elim (Option-cases (lookup user e.core.ledger.balances)) [
  | inr (b, old) ↦ let first = handle_user_created-known user e named b old in rw first first
  | inl fresh ↦
      let first = handle_user_created-fresh user e named fresh in
      rw first (
        handle_user_created-known user _ named starting_balance (
          lookup-insert user user starting_balance e.core.ledger.balances
          ∙ rw (beq_refl user) refl))
]
