-- ===== src/Api/Asking.antt =====
-- The part that the handlers share: the engine is asked, and its reply given.
use predix_go_backend.Base.{ℕ, ◌≡◌, refl, sym, String, ◌⊎◌, Option, arith, string_eq, inl, inr}
use predix_go_backend.Partition.Router.{Router}
use predix_go_backend.Engine.Commands.{Response, Reply, success, failure}
use predix_go_backend.Rpc.{
  MessageToEngine, Exchange, Awaited, answered, unanswered, send_and_await, EngineResponse,
}
use predix_go_backend.Rpc.Requests.{IsRequested, send_and_await-IsRequested}
use predix_go_backend.Api.{Body, engine_reply, HttpResponse, refused, granted, Backend, ask_engine}

-- The engine was asked: the tables are as they were, the request went out as every request does, and
-- what is granted is the engine's successful reply to it.
pub record IsAsked (router : Option Router) (x : Exchange) (event : String) (msg : MessageToEngine)
    (b : Backend) (r : HttpResponse × Backend) : Type 0 where
  pub answer : Awaited
  pub requested : IsRequested router x event msg b.store (answer, r.1.store)
  pub tables : r.1.tables ≡ b.tables
  pub granted_reply :
      (code : ℕ) (body : Body)
      → r.0 ≡ granted code body
      → (a : EngineResponse) × (reply : Reply) × (answer ≡ answered a)
        × (a.body ≡ success reply)
        × (code ≡ 200)
        × (body ≡ engine_reply reply)

refused-granted :
    (c d : ℕ) (message : String) (body : Body) → ¬ (refused c message ≡ granted d body)
refused-granted c d message body e = cc

granted-injective : (c d : ℕ) (x y : Body) → granted c x ≡ granted d y → (c ≡ d) × (x ≡ y)
granted-injective c d x y e = ground arith

Response-cases :
    (r : Response)
    → ((reply : Reply) × (r ≡ success reply)) ⊎ ((message : String) × (r ≡ failure message))
Response-cases (success reply) = inl (reply, refl)
Response-cases (failure message) = inr (message, refl)

Awaited-cases :
    (a : Awaited)
    → ((message : String) × (a ≡ unanswered message))
      ⊎ (((r : EngineResponse) × (reply : Reply) × (a ≡ answered r) × (r.body ≡ success reply))
          ⊎ ((r : EngineResponse) × (message : String) × (a ≡ answered r)
              × (r.body ≡ failure message)))
Awaited-cases (unanswered message) = inl (message, refl)
Awaited-cases (answered r) = elim (Response-cases r.body) [
  | inl (reply, e) ↦ inr (inl (r, reply, refl, e))
  | inr (message, e) ↦ inr (inr (r, message, refl, e))
]

module _ (router : Option Router) (x : Exchange) (event : String) (msg : MessageToEngine)
    (b : Backend) where
  pub ask_engine-IsAsked : IsAsked router x event msg b (ask_engine router x event msg b)
  unfolding ask_engine
  ask_engine-IsAsked =
      let r = send_and_await-IsRequested router x event msg b.store in
      elim (Awaited-cases (send_and_await router x event msg b.store).0) [
        | inl (message, e) ↦
            rw (ask_engine, e)
              (record {
                answer = (send_and_await router x event msg b.store).0;
                requested = r;
                tables = refl;
                granted_reply = λ code body g. absurd (refused-granted _ code _ body g);
              })
        | inr (inl (a, reply, e, f)) ↦
            rw (ask_engine, e, f)
              (record {
                answer = (send_and_await router x event msg b.store).0;
                requested = r;
                tables = refl;
                granted_reply = λ code body g.
                    let same = granted-injective _ code _ body g in
                    (a, reply, e, f, sym same.0, sym same.1);
              })
        | inr (inr (a, message, e, f)) ↦
            rw (ask_engine, e, f)
              (record {
                answer = (send_and_await router x event msg b.store).0;
                requested = r;
                tables = refl;
                granted_reply = λ code body g. absurd (refused-granted _ code _ body g);
              })
      ]
