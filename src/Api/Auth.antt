-- ===== src/Api/Auth.antt =====
-- internal/middleware/auth.go and internal/handler/auth.go. The bcrypt and JWT libraries and the
-- validator's test of an email are an argument.
use predix_go_backend.Base.{
  ℕ, String, Bool, not, ◌&&◌, Option, none, some, List, [], ◌∷◌, ◌==◌, string_eq, nat_eq,
  if◌then◌else◌, leb,
}
use Prim.Native.Char.{Char, code}
use Prim.Native.String.{count}
use Prim.Native.String.{[] as nil, ◌∷◌ as ◌∷ₛ◌}
use predix_go_backend.Partition.Router.{Router}
use predix_go_backend.Rpc.{Payload, Stamp, Added, send_command_fanout}
use predix_go_backend.Api.Queries.{get_user_by_email, create_user}
use predix_go_backend.Api.{Backend, event_payload, blank_request}

-- strings.Split at each space.
abbrev extend : Char → List String → List String
extend c [] = (c ∷ₛ nil) ∷ []
extend c (s ∷ ss) = (c ∷ₛ s) ∷ ss

unfoldable pub split_space : String → List String
split_space nil = nil ∷ []
split_space (c ∷ₛ s) =
    let rest = split_space s in if code c == 32 then nil ∷ rest else extend c rest

-- The user's id and email.
abbrev pub Claims : Type 0
Claims = String × String

pub data Passage : Type 0 where
  let_through : Claims → Passage
  aborted : String → Passage

abbrev pub check_token : Option Claims → Passage
check_token none = aborted "Invalid token"
check_token (some claims) = let_through claims

unfoldable pub auth_middleware : (String → Option Claims) → String → Passage
unfolding split_space
auth_middleware validate header =
    if header == "" then aborted "Authorization header required" else elim (split_space header) [
      | scheme ∷ token ∷ [] ↦
          if scheme == "Bearer"
          then check_token (validate token)
          else aborted "Invalid authorization format"
      | _ ↦ aborted "Invalid authorization format"
    ]

-- What the libraries do.
pub record Libraries : Type 0 where
  pub is_email : String → Bool
  pub hash : String → Option String
  pub matches : String → String → Bool
  pub generate : String → String → Option String
  pub validate : String → Option Claims

pub data Session : Type 0 where
  denied : ℕ → String → Session
  signed_up : String → String → Session
  signed_in : String → String → String → Session

-- The binding tags of SignupRequest and of SigninRequest.
abbrev pub binds_signup : Libraries → String → String → Bool
binds_signup lib email password =
    not (email == "") && (lib.is_email email && (not (password == "") && leb 6 (count password)))

abbrev pub binds_signin : Libraries → String → String → Bool
binds_signin lib email password = not (email == "") && (lib.is_email email && not (password == ""))

-- What a sign-up meets outside: failing queries, the new id, and the fan-out's stamps and appends.
pub record Outside : Type 0 where
  pub find_fails : Bool
  pub create_fails : Bool
  pub new_id : String
  pub stamps : ℕ → Stamp
  pub added : ℕ → Added

abbrev pub user_payload : String → Payload
user_payload user = record (event_payload "") {
  create_fields = some (record (blank_request "" "") { user_id = user });
  event_user_fields = some ("", user);
  user_field = some user;
}

-- The error of the fan-out is dropped.
unfoldable pub signup :
    Libraries → Option Router → Outside → Option (String × String) → Backend → Session × Backend
signup lib router o none b = (denied 400 "invalid request", b)
signup lib router o (some (email, password)) b =
    if not (binds_signup lib email password)
    then (denied 400 "invalid request", b)
    else elim (get_user_by_email o.find_fails email b.tables) [
      | some row ↦ (denied 409 "email already registered", b)
      | none ↦ elim (lib.hash password) [
        | none ↦ (denied 500 "failed to hash password", b)
        | some hashed ↦
            elim (create_user o.create_fails
              (record { id = o.new_id; email = email; password_hash = hashed }) b.tables) [
                | none ↦ (denied 500 "failed to create user", b)
                | some tables ↦ (
                  signed_up o.new_id email,
                  record {
                    tables = tables;
                    store =
                        (send_command_fanout router o.stamps o.added "USER_CREATED"
                          (user_payload o.new_id) b.store).1;
                  },
                )
              ]
      ]
    ]

unfoldable pub signin : Libraries → Bool → Option (String × String) → Backend → Session
signin lib find_fails none b = denied 400 "invalid request"
signin lib find_fails (some (email, password)) b =
    if not (binds_signin lib email password)
    then denied 400 "invalid request"
    else elim (get_user_by_email find_fails email b.tables) [
      | none ↦ denied 401 "invalid credentials"
      | some row ↦
          if not (lib.matches row.password_hash password)
          then denied 401 "invalid credentials"
          else elim (lib.generate row.id row.email) [
            | none ↦ denied 500 "failed to generate token"
            | some token ↦ signed_in token row.id row.email
          ]
    ]
