-- ===== src/Api/Sessions.antt =====
-- From a sign-up to a request that passes the middleware.
use predix_go_backend.Base.{
  ℕ, ◌≡◌, refl, sym, ap, ◌∙◌, String, Bool, true, false, not, Option, some, [], ◌∷◌, ◌==◌,
  string_eq, arith, Bool-cases, Option-cases, inl, inr, beq_refl,
}
use predix_go_backend.Dict.{lookup, insert, lookup-insert}
use predix_go_backend.Partition.Router.{Router}
use predix_go_backend.DbWorker.Database.{exists}
use predix_go_backend.Api.Queries.{Tables, UserRow, get_user_by_email, create_user, default_balance}
use predix_go_backend.Api.{Backend}
use predix_go_backend.Api.Auth.{
  Claims, let_through, split_space, auth_middleware, Libraries, Session, denied, signed_up,
  signed_in, binds_signup, binds_signin, Outside, signup, signin,
}

denied-signed_up :
    (code : ℕ) (message id email : String) (b b' : Backend)
    → ¬ (◌≡◌ {A = Session × Backend} (denied code message, b) (signed_up id email, b'))
denied-signed_up code message id email b b' e = cc

signed_up-injective :
    (id id' email email' : String) (b b' : Backend)
    → ◌≡◌ {A = Session × Backend} (signed_up id email, b) (signed_up id' email', b')
    → (id ≡ id') × (b ≡ b')
signed_up-injective id id' email email' b b' e = ground arith

-- The row of a new user, and the balance.
create_user-row :
    (fails : Bool) (row : UserRow) (t t' : Tables)
    → create_user fails row t ≡ some t'
    → (lookup row.email t'.users ≡ some row) × (lookup row.id t'.db.users ≡ some default_balance)
unfolding create_user
create_user-row fails row t t' e = elim (Bool-cases fails) [
  | inl down ↦ absurd (ground arith)
  | inr up ↦ elim (Bool-cases (exists (lookup row.email t.users))) [
    | inl taken ↦ absurd (ground arith)
    | inr free ↦
        let same : (record t {
          users = insert row.email row t.users;
          db = record (t.db) { users = insert row.id default_balance t.db.users };
        })
            ≡ t' =
          ground arith in
        (
          ap (λ (x : Tables). lookup row.email x.users) (sym same)
              ∙ lookup-insert row.email row.email row t.users
              ∙ rw (beq_refl row.email) refl,
          ap (λ (x : Tables). lookup row.id x.db.users) (sym same)
              ∙ lookup-insert row.id row.id default_balance t.db.users
              ∙ rw (beq_refl row.id) refl,
        )
  ]
]

-- What a sign-up that succeeds has done to the tables.
pub record IsSignedUp (lib : Libraries) (email password id : String) (b' : Backend) : Type 0 where
  pub hashed : String
  pub bound : binds_signup lib email password ≡ true
  pub hash_eq : lib.hash password ≡ some hashed
  pub row :
      lookup email b'.tables.users
      ≡ some (record { id = id; email = email; password_hash = hashed })
  pub balance : lookup id b'.tables.db.users ≡ some default_balance

signup-IsSignedUp :
    (lib : Libraries) (router : Option Router) (o : Outside) (email password id email' : String)
    (b b' : Backend)
    → signup lib router o (some (email, password)) b ≡ (signed_up id email', b')
    → IsSignedUp lib email password id b'
unfolding signup
signup-IsSignedUp lib router o email password id email' b b' e =
    elim (Bool-cases (not (binds_signup lib email password))) [
      | inl unbound ↦ absurd (denied-signed_up _ _ id email' b b' (rw (signup, unbound) at e))
      | inr bound ↦ elim (Option-cases (get_user_by_email o.find_fails email b.tables)) [
        | inr (row, known) ↦
            absurd (denied-signed_up _ _ id email' b b' (rw (signup, bound, known) at e))
        | inl new ↦ elim (Option-cases (lib.hash password)) [
          | inl unhashed ↦
              absurd (denied-signed_up _ _ id email' b b' (rw (signup, bound, new, unhashed) at e))
          | inr (hashed, hash_eq) ↦
              let user : UserRow = record {
                id = o.new_id;
                email = email;
                password_hash = hashed;
              } in
              elim (Option-cases (create_user o.create_fails user b.tables)) [
                | inl failed ↦ absurd (
                    denied-signed_up _ _ id email' b b'
                      (rw (signup, bound, new, hash_eq, failed) at e))
                | inr (tables, created) ↦
                    let same =
                      signed_up-injective _ id _ email' _ b'
                        (rw (signup, bound, new, hash_eq, created) at e) in
                    let rows = create_user-row o.create_fails user b.tables tables created in
                    record {
                      hashed = hashed;
                      bound = ground arith;
                      hash_eq = hash_eq;
                      row =
                          ap (λ (x : Backend). lookup email x.tables.users) (sym same.1)
                          ∙ rows.0
                          ∙ ap
                              (λ (i : String).
                                some (record { id = i; email = email; password_hash = hashed }))
                              same.0;
                      balance =
                          ap (λ (x : Backend). lookup id x.tables.db.users) (sym same.1)
                          ∙ ap (λ (i : String). lookup i tables.db.users) (sym same.0)
                          ∙ rows.1;
                    }
              ]
        ]
      ]
    ]

binds_signin-signup :
    (lib : Libraries) (email password : String)
    → binds_signup lib email password ≡ true
    → binds_signin lib email password ≡ true
binds_signin-signup lib email password e = ground arith

not_empty : (header token : String) → header ≡ "" → ¬ (split_space header ≡ "Bearer" ∷ token ∷ [])
unfolding split_space
not_empty header token empty parts =
    let one : "" ∷ [] ≡ "Bearer" ∷ token ∷ [] = sym (ap split_space empty) ∙ parts in cc

auth_middleware-passes :
    (validate : String → Option Claims) (header token : String) (claims : Claims)
    → split_space header ≡ "Bearer" ∷ token ∷ []
    → validate token ≡ some claims
    → auth_middleware validate header ≡ let_through claims
unfolding auth_middleware
auth_middleware-passes validate header token claims parts valid = elim (Bool-cases (header == "")) [
  | inl empty ↦ absurd (not_empty header token ((string_eq.beq_iff header "").0 empty) parts)
  | inr full ↦ rw (auth_middleware, full, parts, valid) refl
]

pub signup-signin_passes :
    (lib : Libraries) (router : Option Router) (o : Outside)
    (email password id header token : String) (b b' : Backend)
    → signup lib router o (some (email, password)) b ≡ (signed_up id email, b')
    → ((hashed : String) → lib.hash password ≡ some hashed → lib.matches hashed password ≡ true)
    → lib.generate id email ≡ some token
    → lib.validate token ≡ some (id, email)
    → split_space header ≡ "Bearer" ∷ token ∷ []
    → (signin lib false (some (email, password)) b' ≡ signed_in token id email)
      × (auth_middleware lib.validate header ≡ let_through (id, email))
      × (lookup id b'.tables.db.users ≡ some default_balance)
unfolding signin get_user_by_email
signup-signin_passes lib router o email password id header token b b' e matched generated valid
      parts =
    let s = signup-IsSignedUp lib router o email password id email b b' e in
    let bound = binds_signin-signup lib email password s.bound in
    (
      rw (signin, bound, s.row, matched s.hashed s.hash_eq, generated) refl,
      auth_middleware-passes lib.validate header token (id, email) parts valid,
      s.balance,
    )
