-- ===== src/Engine/Consumer/Replies.antt =====
-- A request on its way through the stream, the engine and back.
use predix_go_backend.Base.{
  ℕ, ◌≡◌, refl, sym, ap, ◌∙◌, subst, String, true, false, Option, some, List, [], ◌∷◌, ◌++◌, All,
  arith, ◌==◌, if◌then◌else◌, string_eq,
}
use predix_go_backend.Engine.Commands.{Engine, World, Response}
use predix_go_backend.Engine.Core.Invariant.{IsValid}
use predix_go_backend.Engine.Dispatch.{Command, handle_message}
use predix_go_backend.Engine.Dispatch.Totality.{CommandFits, handle_message-Served}
use predix_go_backend.Engine.Consumer.{
  Consumer, Link, command_of, read_entry, acknowledge, respond, process_stream_entry,
}
use predix_go_backend.Engine.Consumer.Entries.{acknowledge-engine, process_stream_entry-handled}
use predix_go_backend.Partition.Router.{Router}
use predix_go_backend.Rpc.{
  Payload, CommandEnvelope, EngineResponse, written, Entry, Heard, reply, answered, await_response,
  Store, Stamp, create_envelope,
}
use predix_go_backend.Rpc.Append.{create_envelope-Says}
use predix_go_backend.Rpc.Requests.{IsStray, await_response-answered}

-- The entry of a request, as appendCommand writes it.
abbrev pub request_entry : String → CommandEnvelope → Entry
request_entry client env = record { client_id = client; command = written env }

read_entry-request :
    (client kind : String) (payload : Payload) (env : CommandEnvelope)
    → env.kind ≡ kind
    → env.payload ≡ payload
    → (kind == "") ≡ false
    → read_entry (request_entry client env) ≡ some (command_of kind payload)
unfolding read_entry
read_entry-request client kind payload env same_kind same_payload typed =
    rw (ap (λ (k : String). k == "") same_kind ∙ typed) (
      ap (λ (k : String). some (command_of k env.payload)) same_kind
      ∙ ap (λ (x : Payload). some (command_of kind x)) same_payload)

respond-waiting :
    (link : Link) (entry : Entry) (request : String) (body : Response) (c : Consumer)
    → (entry.client_id == "") ≡ false
    → link.publish_ok ≡ true
    → respond link entry request body c ≡ record c {
      published =
          c.published ++ (entry.client_id, record { request_id = request; body = body }) ∷ [];
    }
unfolding respond
respond-waiting link entry request body c waits ok = rw (waits, ok) refl

acknowledge-published :
    (link : Link) (id : String) (c : Consumer) → (acknowledge link id c).published ≡ c.published
acknowledge-published link id c = ground arith

acknowledge-acked :
    (link : Link) (id : String) (c : Consumer)
    → (acknowledge link id c).acked ≡ (if link.ack_ok then c.acked ++ id ∷ [] else c.acked)
acknowledge-acked link id c = ground arith

-- What a served request is: the response is the handler's, on the client's channel, and is the one
-- that the client takes, whatever replies to others come before and whatever comes after; the entry
-- is acknowledged.
pub record IsAnswered (w : World) (pid : ℕ) (link : Link) (id client request : String)
    (command : Command) (c c' : Consumer) : Type 0 where
  pub response : EngineResponse
  pub handled : handle_message w pid command c.engine ≡ some (response.body, c'.engine)
  pub valid : IsValid c'.engine.core
  pub published : c'.published ≡ c.published ++ (client, response) ∷ []
  pub acked : c'.acked ≡ (if link.ack_ok then c.acked ++ id ∷ [] else c.acked)
  pub taken :
      (strays after : List Heard)
      → All (IsStray request) strays
      → await_response request (strays ++ reply response ∷ after) ≡ answered response

-- A request that a client appends, with a channel and a type, is served by an engine in a valid
-- state, and the response that is published reaches the client that awaits it; a quantity is an
-- int64 and the publication works.
pub request-IsAnswered :
    (w : World) (pid : ℕ) (link : Link) (id client : String) (router : Option Router)
    (stamp : Stamp) (event kind : String) (payload : Payload) (p : ℕ) (s : Store) (c : Consumer)
    → (client == "") ≡ false
    → (kind == "") ≡ false
    → link.publish_ok ≡ true
    → CommandFits (command_of kind payload)
    → IsValid c.engine.core
    → (c' : Consumer) × (process_stream_entry w pid link id
          (request_entry client (create_envelope router stamp kind event payload p s).0)
          c
        ≡ some c')
      × IsAnswered w pid link id client stamp.request_id (command_of kind payload) c c'
request-IsAnswered w pid link id client router stamp event kind payload p s c waits typed ok fits
      v =
    let env = (create_envelope router stamp kind event payload p s).0 in
    let entry : Entry = request_entry client env in
    let says = create_envelope-Says router stamp event kind payload p s in
    let (x, served, valid) =
      handle_message-Served w pid (command_of kind payload) c.engine fits v in
    let moved : Consumer = record c { engine = x.1 } in
    let response : EngineResponse = record { request_id = env.request_id; body = x.0 } in
    let told : Consumer = record moved { published = moved.published ++ (client, response) ∷ [] } in
    let read = read_entry-request client kind payload env says.kind_eq says.payload_eq typed in
    (
      acknowledge link id told,
      process_stream_entry-handled w pid link id entry c (command_of kind payload) x.0 x.1 read
            served
          ∙ ap (λ (d : Consumer). some (acknowledge link id d))
              (respond-waiting link entry env.request_id x.0 moved waits ok),
      record {
        response = response;
        handled =
            served ∙ ap (λ (e : Engine). some (x.0, e)) (sym (acknowledge-engine link id told));
        valid =
            subst (λ (e : Engine). IsValid e.core) (sym (acknowledge-engine link id told)) valid;
        published = acknowledge-published link id told;
        acked = acknowledge-acked link id told;
        taken = λ strays after a.
            await_response-answered stamp.request_id strays after response a says.request_eq;
      },
    )
