-- ===== src/Rpc/Requests.antt =====
-- A request and its reply: where the command goes, and which reply counts.
use predix_go_backend.Base.{
  ℕ, ◌≤◌, ◌≡◌, refl, sym, ap, ◌∙◌, subst, String, Bool, true, false, Option, List, [], ◌∷◌, ◌++◌,
  All, arith, ◌==◌, string_eq, Bool-cases, inl, inr,
}
use predix_go_backend.Partition.Router.{Router}
use predix_go_backend.Rpc.{
  MessageToEngine, CommandEnvelope, EngineResponse, written, Entry, Key, same_key, Store, key_for,
  partition_for, create_envelope, append_command, Heard, closed, unreadable, canceled, reply,
  Awaited, answered, unanswered, await_response, Exchange, send_and_await,
}
use predix_go_backend.Rpc.Append.{
  copies, Tried, append_from-Tried, append-nil, Says, create_envelope-Says, create_envelope-stream,
}

-- The response is of this request, and was heard.
abbrev pub IsAnswer : String → List Heard → EngineResponse → Type 0
IsAnswer request hs r =
    (r.request_id ≡ request)
    × (before : List Heard) × (after : List Heard) × (hs ≡ before ++ reply r ∷ after)

unanswered-not-answered :
    (message : String) (r : EngineResponse) → ¬ (unanswered message ≡ answered r)
unanswered-not-answered message r e = cc

IsAnswer-later :
    (request : String) (h : Heard) (hs : List Heard) (r : EngineResponse)
    → IsAnswer request hs r
    → IsAnswer request (h ∷ hs) r
IsAnswer-later request h hs r (same, before, after, e) =
    (same, h ∷ before, after, ap (λ (t : List Heard). h ∷ t) e)

answered-injective : (q r : EngineResponse) → answered q ≡ answered r → q ≡ r
answered-injective q r e = ground arith

await_response-IsAnswer :
    (request : String) (hs : List Heard) (r : EngineResponse)
    → await_response request hs ≡ answered r
    → IsAnswer request hs r
unfolding await_response
await_response-IsAnswer request [] r e = absurd (unanswered-not-answered _ r e)
await_response-IsAnswer request (closed ∷ hs) r e = absurd (unanswered-not-answered _ r e)
await_response-IsAnswer request (unreadable ∷ hs) r e = absurd (unanswered-not-answered _ r e)
await_response-IsAnswer request (canceled ∷ hs) r e = absurd (unanswered-not-answered _ r e)
await_response-IsAnswer request (reply q ∷ hs) r e = elim (Bool-cases (q.request_id == request)) [
  | inl mine ↦
      let same : q ≡ r = answered-injective q r (sym (rw (await_response, mine) refl) ∙ e) in
      (
        ap (λ (y : EngineResponse). y.request_id) (sym same)
            ∙ (string_eq.beq_iff q.request_id request).0 mine,
        [],
        hs,
        ap (λ (y : EngineResponse). reply y ∷ hs) same,
      )
  | inr stray ↦
      IsAnswer-later request (reply q) hs r
        (await_response-IsAnswer request hs r (sym (rw (await_response, stray) refl) ∙ e))
]

-- A reply to another request.
abbrev pub IsStray : String → Heard → Type 0
IsStray request (reply r) = (r.request_id == request) ≡ false
IsStray request _ = ⊥

-- Replies to other requests are passed over, and the first one to this request is the answer.
pub await_response-answered :
    (request : String) (strays hs : List Heard) (r : EngineResponse)
    → All (IsStray request) strays
    → r.request_id ≡ request
    → await_response request (strays ++ reply r ∷ hs) ≡ answered r
unfolding await_response
await_response-answered request [] hs r a e =
    rw (await_response, (string_eq.beq_iff r.request_id request).1 e) refl
await_response-answered request (reply q ∷ strays) hs r a e =
    rw (await_response, a.0) (await_response-answered request strays hs r a.1 e)
await_response-answered request (closed ∷ strays) hs r a e = absurd a.0
await_response-answered request (unreadable ∷ strays) hs r a e = absurd a.0
await_response-answered request (canceled ∷ strays) hs r a e = absurd a.0

-- A request with what came of it: the stream of its event's partition has gained copies of one
-- command, three at most, and no other stream anything; an answer is of this request, was heard,
-- and comes after one copy at least.
pub record IsRequested (router : Option Router) (x : Exchange) (event : String)
    (msg : MessageToEngine) (s : Store) (r : Awaited × Store) : Type 0 where
  pub envelope : CommandEnvelope
  pub says : Says x.stamp event msg.kind msg.payload envelope
  pub count : ℕ
  pub at_most : count ≤ 3
  pub here :
      r.1.stream (key_for router (partition_for router event))
      ≡ s.stream (key_for router (partition_for router event))
        ++ copies count (record { client_id = x.client_id; command = written envelope })
  pub elsewhere :
      (j : Key)
      → same_key j (key_for router (partition_for router event)) ≡ false
      → r.1.stream j ≡ s.stream j
  pub answer :
      (a : EngineResponse) → r.0 ≡ answered a → (1 ≤ count) × IsAnswer x.stamp.request_id x.heard a

module _ (router : Option Router) (x : Exchange) (event : String) (msg : MessageToEngine)
    (s : Store) where
  place : ℕ
  place = partition_for router event

  stamped : CommandEnvelope × Store
  stamped = create_envelope router x.stamp msg.kind event msg.payload (partition_for router event) s

  attempted : Bool × Store
  attempted =
      append_command router x.added x.client_id stamped.0 (partition_for router event) stamped.1

  send_and_await-unsubscribed :
      x.subscribed ≡ false
      → send_and_await router x event msg s ≡ (unanswered "subscription failed", s)
  unfolding send_and_await
  send_and_await-unsubscribed e = rw e refl

  send_and_await-failed :
      x.subscribed ≡ true
      → attempted.0 ≡ false
      → send_and_await router x event msg s ≡ (unanswered "append failed", attempted.1)
  unfolding send_and_await stamped attempted
  send_and_await-failed e f = rw (e, f) refl

  send_and_await-waited :
      x.subscribed ≡ true
      → attempted.0 ≡ true
      → send_and_await router x event msg s
        ≡ (await_response stamped.0.request_id x.heard, attempted.1)
  unfolding send_and_await stamped attempted
  send_and_await-waited e f = rw (e, f) refl

  tried :
      Tried x.added 0 3
        (key_for router (partition_for router event))
        (record { client_id = x.client_id; command = written stamped.0 })
        stamped.1
        attempted
  unfolding attempted append_command
  tried =
      append_from-Tried x.added 0 3 (key_for router (partition_for router event))
        (record { client_id = x.client_id; command = written stamped.0 }) stamped.1

  stamped-Says : Says x.stamp event msg.kind msg.payload stamped.0
  unfolding stamped
  stamped-Says =
      create_envelope-Says router x.stamp event msg.kind msg.payload (partition_for router event) s

  stamped-stream : stamped.1.stream ≡ s.stream
  unfolding stamped
  stamped-stream =
      create_envelope-stream router x.stamp event msg.kind msg.payload (partition_for router event)
        s

  attempted-IsRequested :
      (a : Awaited)
      → ((r : EngineResponse)
          → a ≡ answered r
          → (attempted.0 ≡ true) × IsAnswer x.stamp.request_id x.heard r)
      → IsRequested router x event msg s (a, attempted.1)
  attempted-IsRequested a right = record {
    envelope = stamped.0;
    says = stamped-Says;
    count = tried.count;
    at_most = tried.at_most;
    here =
        tried.gains.here
        ∙ ap
            (λ (f : Key → List Entry).
              f (key_for router (partition_for router event))
              ++ copies tried.count
                  (record { client_id = x.client_id; command = written stamped.0 }))
            stamped-stream;
    elsewhere =
        λ j d. tried.gains.elsewhere j d ∙ ap (λ (f : Key → List Entry). f j) stamped-stream;
    answer = λ r e. (tried.at_least (right r e).0, (right r e).1);
  }

pub send_and_await-IsRequested :
    (router : Option Router) (x : Exchange) (event : String) (msg : MessageToEngine) (s : Store)
    → IsRequested router x event msg s (send_and_await router x event msg s)
send_and_await-IsRequested router x event msg s = elim (Bool-cases x.subscribed) [
  | inr deaf ↦ rw (send_and_await-unsubscribed router x event msg s deaf) (record {
    envelope = (stamped router x event msg s).0;
    says = stamped-Says router x event msg s;
    count = 0;
    at_most = omega arith;
    here = append-nil _;
    elsewhere = λ j d. refl;
    answer = λ r e. absurd (unanswered-not-answered _ r e);
  })
  | inl live ↦ elim (Bool-cases (attempted router x event msg s).0) [
    | inr failed ↦ rw (send_and_await-failed router x event msg s live failed) (
        attempted-IsRequested router x event msg s _
          (λ r e. absurd (unanswered-not-answered _ r e)))
    | inl sent ↦ rw (send_and_await-waited router x event msg s live sent) (
        attempted-IsRequested router x event msg s _ (λ r e. (
          sent,
          subst (λ (id : String). IsAnswer id x.heard r)
              (stamped-Says router x event msg s).request_eq
              (await_response-IsAnswer _ x.heard r e),
        )))
  ]
]
