-- ===== src/Rpc/Fanout.antt =====
-- A command for every partition.
use predix_go_backend.Base.{
  ℕ, zero, suc, ◌+◌, ◌≤◌, ◌<◌, ◌≡◌, refl, sym, ap, ◌∙◌, subst, ◌≢◌, String, Bool, true, false, some,
  List, [], ◌∷◌, ◌++◌, arith, ◌==◌, string_eq, nat_eq, Bool-cases, inl, inr, beq_refl, pos_part,
}
use predix_go_backend.Partition.Router.{Router}
use predix_go_backend.Rpc.{
  Payload, CommandEnvelope, written, Entry, Key, of_partition, Store, Stamp, create_envelope, Added,
  add_once, fanout_from, send_command_fanout,
}
use predix_go_backend.Rpc.Append.{Says, create_envelope-Says, create_envelope-stream, Added-cases}

-- A partition's stream has gained one entry, which says what was sent and wants no reply.
abbrev pub Told : (ℕ → Stamp) → String → Payload → ℕ → Store → Store → Type 0
Told stamps kind payload p s s' =
    (env : CommandEnvelope) × Says (stamps p) "" kind payload env
    × (s'.stream (of_partition p)
        ≡ s.stream (of_partition p) ++ record { client_id = ""; command = written env } ∷ [])

-- The partitions are told in order, up to one at which the fan-out ends; at that one a failed append
-- may have been stored.
pub record IsFanned (stamps : ℕ → Stamp) (kind : String) (payload : Payload) (first left : ℕ)
    (s : Store) (r : Bool × Store) : Type 0 where
  pub reached : ℕ
  pub first_le : first ≤ reached
  pub reached_le : reached ≤ first + left
  pub told : (p : ℕ) → first ≤ p → p < reached → Told stamps kind payload p s r.1
  pub untold : (p : ℕ) → reached < p → r.1.stream (of_partition p) ≡ s.stream (of_partition p)
  pub before : (p : ℕ) → p < first → r.1.stream (of_partition p) ≡ s.stream (of_partition p)
  pub completed : r.0 ≡ true → reached ≡ first + left

module _ (r : Router) (stamps : ℕ → Stamp) (added : ℕ → Added) (kind : String) (payload : Payload)
    (p : ℕ) (s : Store) where
  -- The one partition's turn.
  turn : Bool × Store
  turn =
      add_once (added p) (of_partition p)
        (record {
          client_id = "";
          command = written (create_envelope (some r) (stamps p) kind "" payload p s).0;
        })
        (create_envelope (some r) (stamps p) kind "" payload p s).1

  turn-elsewhere :
      (q : ℕ) → (q == p) ≡ false → turn.1.stream (of_partition q) ≡ s.stream (of_partition q)
  unfolding turn
  turn-elsewhere q d =
      let before : (create_envelope (some r) (stamps p) kind "" payload p s).1.stream ≡ s.stream =
        create_envelope-stream (some r) (stamps p) "" kind payload p s in
      let at_q = ap (λ (f : Key → List Entry). f (of_partition q)) before in
      elim (Added-cases (added p)) [
        | inl e ↦ rw (e, d) at_q
        | inr (inl e) ↦ rw (e, d) at_q
        | inr (inr e) ↦ rw e at_q
      ]

  turn-Told : turn.0 ≡ true → Told stamps kind payload p s turn.1
  unfolding turn
  turn-Told ok =
      let before : (create_envelope (some r) (stamps p) kind "" payload p s).1.stream ≡ s.stream =
        create_envelope-stream (some r) (stamps p) "" kind payload p s in
      elim (Added-cases (added p)) [
        | inl e ↦ (
          _,
          create_envelope-Says (some r) (stamps p) "" kind payload p s,
          rw (e, beq_refl p)
              (ap
                (λ (f : Key → List Entry).
                  f (of_partition p)
                  ++ record {
                    client_id = "";
                    command = written (create_envelope (some r) (stamps p) kind "" payload p s).0;
                  }
                    ∷ [])
                before),
        )
        | inr (inl e) ↦ absurd (ground arith)
        | inr (inr e) ↦ absurd (ground arith)
      ]

Told-later :
    (stamps : ℕ → Stamp) (kind : String) (payload : Payload) (p : ℕ) (s s' s'' : Store)
    → s'.stream (of_partition p) ≡ s.stream (of_partition p)
    → Told stamps kind payload p s' s''
    → Told stamps kind payload p s s''
Told-later stamps kind payload p s s' s'' same (env, says, e) = (
  env,
  says,
  e ∙ ap (λ (l : List Entry). l ++ record { client_id = ""; command = written env } ∷ []) same,
)

Told-kept :
    (stamps : ℕ → Stamp) (kind : String) (payload : Payload) (p : ℕ) (s s' s'' : Store)
    → s''.stream (of_partition p) ≡ s'.stream (of_partition p)
    → Told stamps kind payload p s s'
    → Told stamps kind payload p s s''
Told-kept stamps kind payload p s s' s'' same (env, says, e) = (env, says, same ∙ e)

distinct : (q p : ℕ) → q ≢ p → (q == p) ≡ false
distinct q p d = ground (arith, nat_eq.beq_iff q p)

after : (p q : ℕ) → p ≤ q → (q == p) ≡ false → suc p ≤ q
after p q le d = ground (arith, nat_eq.beq_iff q p)

module _ (r : Router) (stamps : ℕ → Stamp) (added : ℕ → Added) (kind : String)
    (payload : Payload) where
  fanout_from-turned :
      (p left : ℕ) (s : Store)
      → (turn r stamps added kind payload p s).0 ≡ true
      → fanout_from r stamps added kind payload p (suc left) s
        ≡ fanout_from r stamps added kind payload
            (suc p)
            left
            (turn r stamps added kind payload p s).1
  unfolding fanout_from turn
  fanout_from-turned p left s ok = rw (fanout_from, ok) refl

  fanout_from-ended :
      (p left : ℕ) (s : Store)
      → (turn r stamps added kind payload p s).0 ≡ false
      → fanout_from r stamps added kind payload p (suc left) s
        ≡ (false, (turn r stamps added kind payload p s).1)
  unfolding fanout_from turn
  fanout_from-ended p left s failed = rw (fanout_from, failed) refl

  fanout_from-IsFanned :
      (p left : ℕ) (s : Store)
      → IsFanned stamps kind payload p left s (fanout_from r stamps added kind payload p left s)
  unfolding fanout_from
  fanout_from-IsFanned p zero s = record {
    reached = p;
    first_le = omega arith;
    reached_le = omega arith;
    told = λ q ge lt. absurd (omega arith);
    untold = λ q lt. refl;
    before = λ q lt. refl;
    completed = λ e. omega arith;
  }
  fanout_from-IsFanned p (suc left) s =
      let t = turn r stamps added kind payload p s in
      let others = turn-elsewhere r stamps added kind payload p s in
      elim (Bool-cases (turn r stamps added kind payload p s).0) [
        | inr failed ↦ rw (fanout_from-ended p left s failed) (record {
          reached = p;
          first_le = omega arith;
          reached_le = omega arith;
          told = λ q ge lt. absurd (omega arith);
          untold = λ q lt. others q (distinct q p (omega arith));
          before = λ q lt. others q (distinct q p (omega arith));
          completed = λ e. cc;
        })
        | inl ok ↦
            let f = fanout_from-IsFanned (suc p) left t.1 in
            let last : Store = (fanout_from r stamps added kind payload (suc p) left t.1).1 in
            rw (fanout_from-turned p left s ok) (record {
              reached = f.reached;
              first_le = omega (arith, f.first_le);
              reached_le = omega (arith, f.reached_le);
              told = λ q ge lt. elim (Bool-cases (q == p)) [
                | inl same ↦
                    subst (λ (k : ℕ). Told stamps kind payload k s last)
                      (sym ((nat_eq.beq_iff q p).0 same))
                      (Told-kept stamps kind payload p s t.1 last (f.before p (omega arith))
                        (turn-Told r stamps added kind payload p s ok))
                | inr other ↦
                    Told-later stamps kind payload q s t.1 last (others q other)
                      (f.told q (after p q ge other) lt)
              ];
              untold = λ q lt. f.untold q lt ∙ others q (distinct q p (omega (arith, f.first_le)));
              before = λ q lt. f.before q (omega arith) ∙ others q (distinct q p (omega arith));
              completed = λ e. f.completed e ∙ omega arith;
            })
      ]

pub send_command_fanout-IsFanned :
    (r : Router) (stamps : ℕ → Stamp) (added : ℕ → Added) (kind : String) (payload : Payload)
    (s : Store)
    → IsFanned stamps kind payload 0
        (pos_part r.partitions)
        s
        (send_command_fanout (some r) stamps added kind payload s)
unfolding send_command_fanout
send_command_fanout-IsFanned r stamps added kind payload s =
    fanout_from-IsFanned r stamps added kind payload 0 (pos_part r.partitions) s
