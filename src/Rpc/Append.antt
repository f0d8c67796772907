-- ===== src/Rpc/Append.antt =====
-- What an append leaves in the streams, whatever Redis does to the attempts.
use predix_go_backend.Base.{
  ℕ, zero, suc, ◌+◌, ◌≤◌, ◌<◌, ◌≡◌, refl, ap, ◌∙◌, String, Bool, true, false, Option, List, [], ◌∷◌,
  ◌++◌, arith, string_eq, nat_eq, inl, inr, ◌⊎◌, beq_refl,
}
use mathlib.Core.List.{append_assoc}
use predix_go_backend.Partition.Router.{Router}
use predix_go_backend.Rpc.{
  Payload, CommandEnvelope, Entry, Key, legacy, of_partition, same_key, Store, Count, counted,
  uncertain, uncounted, Stamp, create_envelope, Added, stored, lost_reply, refused, append_entry,
  append_from,
}

pub same_key_refl : (k : Key) → same_key k k ≡ true
same_key_refl legacy = refl
same_key_refl (of_partition p) = beq_refl p

abbrev pub copies : ℕ → Entry → List Entry
copies zero e = []
copies (suc n) e = e ∷ copies n e

-- A stream has gained so many copies of an entry, and every other stream and the counters are as
-- they were.
pub record Gains (n : ℕ) (k : Key) (e : Entry) (s s' : Store) : Type 0 where
  pub here : s'.stream k ≡ s.stream k ++ copies n e
  pub elsewhere : (j : Key) → same_key j k ≡ false → s'.stream j ≡ s.stream j
  pub counters : s'.counter ≡ s.counter

pub append-nil : (l : List Entry) → l ≡ l ++ []
append-nil [] = refl
append-nil (x ∷ l) = ap (λ (t : List Entry). x ∷ t) (append-nil l)

pub Gains-none : (k : Key) (e : Entry) (s : Store) → Gains 0 k e s s
Gains-none k e s = record {
  here = append-nil (s.stream k);
  elsewhere = λ j d. refl;
  counters = refl;
}

pub Gains-append_entry :
    (n : ℕ) (k : Key) (e : Entry) (s s' : Store)
    → Gains n k e (append_entry k e s) s'
    → Gains (suc n) k e s s'
Gains-append_entry n k e s s' g = record {
  here = g.here ∙ rw (same_key_refl k) (append_assoc (s.stream k) (e ∷ []) (copies n e));
  elsewhere = λ j d. g.elsewhere j d ∙ rw d refl;
  counters = g.counters;
}

-- An append in so many attempts: copies, one at least if it reports success, which it does if any
-- of the attempts is acknowledged.
pub record Tried (added : ℕ → Added) (attempt left : ℕ) (k : Key) (e : Entry) (s : Store)
    (r : Bool × Store) : Type 0 where
  pub count : ℕ
  pub gains : Gains count k e s r.1
  pub at_most : count ≤ left
  pub at_least : r.0 ≡ true → 1 ≤ count
  pub acknowledged : (i : ℕ) → i < left → added (attempt + i) ≡ stored → r.0 ≡ true

pub Added-cases : (a : Added) → (a ≡ stored) ⊎ ((a ≡ lost_reply) ⊎ (a ≡ refused))
Added-cases stored = inl refl
Added-cases lost_reply = inr (inl refl)
Added-cases refused = inr (inr refl)

later_attempt :
    (added : ℕ → Added) (attempt left : ℕ) (r : Bool)
    → ¬ (added attempt ≡ stored)
    → ((i : ℕ) → i < left → added (suc attempt + i) ≡ stored → r ≡ true)
    → (i : ℕ) → i < suc left
    → added (attempt + i) ≡ stored
    → r ≡ true
later_attempt added attempt left r first rest zero lt e =
    absurd (first (ap added (omega arith) ∙ e))
later_attempt added attempt left r first rest (suc i) lt e =
    rest i (omega arith) (ap added (omega arith) ∙ e)

pub append_from-Tried :
    (added : ℕ → Added) (attempt left : ℕ) (k : Key) (e : Entry) (s : Store)
    → Tried added attempt left k e s (append_from added attempt left k e s)
unfolding append_from
append_from-Tried added attempt zero k e s = record {
  count = 0;
  gains = Gains-none k e s;
  at_most = omega arith;
  at_least = λ h. cc;
  acknowledged = λ i lt h. absurd (omega arith);
}
append_from-Tried added attempt (suc left) k e s = elim (Added-cases (added attempt)) [
  | inl first ↦
      rw (append_from, first)
        (record {
          count = 1;
          gains =
              Gains-append_entry 0 k e s (append_entry k e s) (Gains-none k e (append_entry k e s));
          at_most = omega arith;
          at_least = λ h. omega arith;
          acknowledged = λ i lt h. refl;
        })
  | inr (inl lost) ↦
      let t = append_from-Tried added (suc attempt) left k e (append_entry k e s) in
      rw (append_from, lost)
        (record {
          count = suc t.count;
          gains = Gains-append_entry t.count k e s _ t.gains;
          at_most = omega (arith, t.at_most);
          at_least = λ h. omega arith;
          acknowledged = later_attempt added attempt left _ (λ h. cc) t.acknowledged;
        })
  | inr (inr none_stored) ↦
      let t = append_from-Tried added (suc attempt) left k e s in
      rw (append_from, none_stored)
        (record {
          count = t.count;
          gains = t.gains;
          at_most = omega (arith, t.at_most);
          at_least = t.at_least;
          acknowledged = later_attempt added attempt left _ (λ h. cc) t.acknowledged;
        })
]

-- The envelope says what was sent, under the id of this request.
pub record Says (stamp : Stamp) (event kind : String) (payload : Payload) (env : CommandEnvelope)
    : Type 0 where
  pub kind_eq : env.kind ≡ kind
  pub payload_eq : env.payload ≡ payload
  pub event_eq : env.event_id ≡ event
  pub request_eq : env.request_id ≡ stamp.request_id

Count-cases : (c : Count) → (c ≡ counted) ⊎ ((c ≡ uncertain) ⊎ (c ≡ uncounted))
Count-cases counted = inl refl
Count-cases uncertain = inr (inl refl)
Count-cases uncounted = inr (inr refl)

module _ (router : Option Router) (stamp : Stamp) (event kind : String) (payload : Payload) (p : ℕ)
    (s : Store) where
  pub create_envelope-Says :
      Says stamp event kind payload (create_envelope router stamp kind event payload p s).0
  unfolding create_envelope
  create_envelope-Says = elim (Count-cases stamp.count) [
    | inl e ↦
        rw (create_envelope, e)
          (record { kind_eq = refl; payload_eq = refl; event_eq = refl; request_eq = refl })
    | inr (inl e) ↦
        rw (create_envelope, e)
          (record { kind_eq = refl; payload_eq = refl; event_eq = refl; request_eq = refl })
    | inr (inr e) ↦
        rw (create_envelope, e)
          (record { kind_eq = refl; payload_eq = refl; event_eq = refl; request_eq = refl })
  ]

  pub create_envelope-stream :
      (create_envelope router stamp kind event payload p s).1.stream ≡ s.stream
  unfolding create_envelope
  create_envelope-stream = elim (Count-cases stamp.count) [
    | inl e ↦ rw (create_envelope, e) refl
    | inr (inl e) ↦ rw (create_envelope, e) refl
    | inr (inr e) ↦ rw (create_envelope, e) refl
  ]
