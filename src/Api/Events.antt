-- ===== src/Api/Events.antt =====
-- Creating an event: a row, a market of the engine, and no row where the engine does not answer.
use predix_go_backend.Base.{
  ℕ, ◌≡◌, refl, sym, ap, ◌∙◌, subst, String, Bool, true, false, ◌⊎◌, Option, none, some, ◌==◌,
  string_eq, arith, Bool-cases, Option-cases, inl, inr, beq_refl, pos,
}
use predix_go_backend.Dict.{lookup, insert, lookup-insert, lookup-erase}
use predix_go_backend.Partition.Router.{Router}
use predix_go_backend.Rpc.{MessageToEngine}
use predix_go_backend.Api.Queries.{Tables, EventRow, create_event_row, delete_event, has_trade}
use predix_go_backend.Api.{
  Body, event_body, HttpResponse, refused, granted, Backend, Outside, CreateEventRequest,
  binds_event, bind_event, row_of, event_payload, ask_engine, announce_event, create_event,
}
use predix_go_backend.Api.Asking.{IsAsked, ask_engine-IsAsked}
use predix_go_backend.Api.Orders.{TurnedAway}

abbrev with_row : String → EventRow → Tables → Tables
with_row id row t = record t {
  events = insert id row t.events;
  db = record (t.db) { volumes = insert id (pos 0) t.db.volumes };
}

abbrev pub message : String → MessageToEngine
message id = record { kind = "CREATE_EVENT"; payload = event_payload id }

create_event_row-some :
    (fails : Bool) (id : String) (row : EventRow) (t t' : Tables)
    → create_event_row fails id row t ≡ some t'
    → t' ≡ with_row id row t
unfolding create_event_row
create_event_row-some true id row t t' e = absurd (ground arith)
create_event_row-some false id row t t' e = ground arith

lookup-delete_event :
    (id j : String) (row : EventRow) (t : Tables)
    → lookup id t.events ≡ none
    → has_trade id t.db.trades ≡ false
    → lookup j (delete_event false id (with_row id row t)).events ≡ lookup j t.events
unfolding delete_event
lookup-delete_event id j row t fresh untraded =
    let erased = lookup-erase id j (insert id row t.events) in
    let inserted = lookup-insert id j row t.events in
    elim (Bool-cases (id == j)) [
      | inl same ↦
          rw (delete_event, untraded)
            (erased
              ∙ rw same (
                  sym (
                    ap (λ (k : String). lookup k t.events) (sym ((string_eq.beq_iff id j).0 same))
                    ∙ fresh)))
      | inr other ↦ rw (delete_event, untraded) (erased ∙ rw other (inserted ∙ rw other refl))
    ]

HttpResponse-cases :
    (r : HttpResponse × Backend)
    → ((code : ℕ) × (body : Body) × (r.0 ≡ granted code body))
      ⊎ ((code : ℕ) × (text : String) × (r.0 ≡ refused code text))
HttpResponse-cases (granted code body, b) = inl (code, body, refl)
HttpResponse-cases (refused code text, b) = inr (code, text, refl)

-- How an event ends that the engine was told of: it is created, where the engine has answered with
-- success; or it is refused, and the events are as they were.
abbrev pub Ending :
    String → EventRow → Backend → HttpResponse × Backend → HttpResponse × Backend → Type 0
Ending id row b asked r =
    ((code : ℕ) × (body : Body) × (asked.0 ≡ granted code body)
      × (r.0 ≡ granted 201 (event_body id row))
      × (lookup id r.1.tables.events ≡ some row))
    ⊎ ((code : ℕ) × (text : String) × (asked.0 ≡ refused code text)
        × (r.0 ≡ refused code text)
        × ((j : String) → lookup j r.1.tables.events ≡ lookup j b.tables.events))

pub record IsAnnounced (router : Option Router) (o : Outside) (row : EventRow) (b : Backend)
    (r : HttpResponse × Backend) : Type 0 where
  pub reply : HttpResponse × Backend
  pub asked :
      IsAsked router o.exchange o.new_id
        (message o.new_id)
        (record b {
          tables = record (b.tables) {
            events = insert o.new_id row b.tables.events;
            db = record (b.tables.db) { volumes = insert o.new_id (pos 0) b.tables.db.volumes };
          };
        })
        reply
  pub store : r.1.store ≡ reply.1.store
  pub ending : Ending o.new_id row b reply r

announce_event-IsAnnounced :
    (router : Option Router) (o : Outside) (row : EventRow) (b : Backend)
    → lookup o.new_id b.tables.events ≡ none
    → has_trade o.new_id b.tables.db.trades ≡ false
    → IsAnnounced router o row b
        (announce_event router o false row (record b { tables = with_row o.new_id row b.tables }))
unfolding announce_event
announce_event-IsAnnounced router o row b fresh untraded =
    let b₁ : Backend = record b { tables = with_row o.new_id row b.tables } in
    let reply : HttpResponse × Backend =
      ask_engine router o.exchange o.new_id (message o.new_id) b₁ in
    let asked = ask_engine-IsAsked router o.exchange o.new_id (message o.new_id) b₁ in
    elim (HttpResponse-cases reply) [
      | inl (code, body, yes_reply) ↦
          rw (announce_event, yes_reply)
            (record {
              reply = reply;
              asked = asked;
              store = refl;
              ending = inl (
                code,
                body,
                yes_reply,
                refl,
                ap (λ (t : Tables). lookup o.new_id t.events) asked.tables
                    ∙ lookup-insert o.new_id o.new_id row b.tables.events
                    ∙ rw (beq_refl o.new_id) refl,
              );
            })
      | inr (code, text, no_reply) ↦
          rw (announce_event, no_reply)
            (record {
              reply = reply;
              asked = asked;
              store = refl;
              ending = inr (
                code,
                text,
                no_reply,
                refl,
                λ j.
                    ap (λ (t : Tables). lookup j (delete_event false o.new_id t).events)
                      asked.tables
                    ∙ lookup-delete_event o.new_id j row b.tables fresh untraded,
              );
            })
    ]

-- An event request that was bound by the tags, and announced.
pub record IsProposed (router : Option Router) (o : Outside) (is_url : String → Bool)
    (parse_time : String → Option ℕ) (body : Option CreateEventRequest) (b : Backend)
    (r : HttpResponse × Backend) : Type 0 where
  pub request : CreateEventRequest
  pub sent : body ≡ some request
  pub bound : binds_event is_url request ≡ true
  pub expires : ℕ
  pub parsed : parse_time request.expires_at ≡ some expires
  pub announced : IsAnnounced router o (row_of request expires) b r

bind_event-some :
    (is_url : String → Bool) (body : Option CreateEventRequest) (r : CreateEventRequest)
    → bind_event is_url body ≡ some r
    → (body ≡ some r) × (binds_event is_url r ≡ true)
unfolding bind_event
bind_event-some is_url none r e = absurd (ground arith)
bind_event-some is_url (some q) r e = elim (Bool-cases (binds_event is_url q)) [
  | inl bound ↦
      let same : q ≡ r = ground arith in (ap some same, ap (binds_event is_url) (sym same) ∙ bound)
  | inr broken ↦ absurd (ground arith)
]

-- A request for an event is turned away, or it is bound by the tags and goes to the engine: the event
-- then has its row exactly where the engine has answered with success; where it has not, the events
-- are as they were. The new id is that of no event and of no trade, and the deletion does not fail.
pub create_event-IsProposed :
    (router : Option Router) (o : Outside) (is_url : String → Bool) (parse_time : String → Option ℕ)
    (body : Option CreateEventRequest) (b : Backend)
    → lookup o.new_id b.tables.events ≡ none
    → has_trade o.new_id b.tables.db.trades ≡ false
    → TurnedAway b (create_event router o is_url parse_time false body b)
      ⊎ IsProposed router o is_url parse_time body b
          (create_event router o is_url parse_time false body b)
unfolding create_event
create_event-IsProposed router o is_url parse_time body b fresh untraded =
    elim (Option-cases (bind_event is_url body)) [
      | inl unbound ↦ inl (400, "invalid request", rw (create_event, unbound) refl)
      | inr (q, bound) ↦ elim (Option-cases (parse_time q.expires_at)) [
        | inl no_time ↦
            inl
              (400, "invalid expiresAt format, use RFC3339", rw (create_event, bound, no_time) refl)
        | inr (expires, parsed) ↦
            elim (Option-cases
              (create_event_row o.query_fails o.new_id (row_of q expires) b.tables)) [
                | inl failed ↦
                    inl
                      (500, "failed to create event", rw (create_event, bound, parsed, failed) refl)
                | inr (tables, created) ↦
                    let row : EventRow = row_of q expires in
                    let same =
                      create_event_row-some o.query_fails o.new_id row b.tables tables created in
                    let (sent, valid) = bind_event-some is_url body q bound in
                    let went : create_event router o is_url parse_time false body b
                        ≡ announce_event router o false row
                            (record b { tables = with_row o.new_id row b.tables }) =
                      (rw (create_event, bound, parsed, created) refl)
                      ∙ ap
                          (λ (t : Tables).
                            announce_event router o false row (record b { tables = t }))
                          same in
                    inr (record {
                      request = q;
                      sent = sent;
                      bound = valid;
                      expires = expires;
                      parsed = parsed;
                      announced =
                          subst (IsAnnounced router o row b) (sym went)
                            (announce_event-IsAnnounced router o row b fresh untraded);
                    })
              ]
      ]
    ]
