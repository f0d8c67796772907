-- ===== src/Websocket/Subscriptions.antt =====
-- The two records of who listens to what, the hub's and the clients', agree.
use predix_go_backend.Base.{
  ℕ, ◌≡◌, refl, sym, ap, ◌∙◌, String, Bool, true, false, not, ◌&&◌, ◌||◌, Option, none, some, List,
  [], ◌∷◌, arith, ◌==◌, string_eq, nat_eq, if◌then◌else◌, Bool-cases, Option-cases, inl, inr,
  length,
}
use predix_go_backend.Dict.{Dict, lookup, insert, erase, lookup-insert, lookup-erase}
use predix_go_backend.Websocket.Sets.{member, add, remove, member-add, member-remove}
use predix_go_backend.Websocket.{
  Hub, subscribers, client_subscribe, client_unsubscribe, subscribe, unsubscribe,
}

-- A client stands among an event's subscribers exactly if the event is among its subscriptions.
abbrev pub Agrees : Hub → Type 0
Agrees h =
    (c : ℕ) (event : String)
    → member c (subscribers event h.subscriptions) ≡ member event (h.heap c).subscriptions

subscribers-insert :
    (k event : String) (cs : List ℕ) (d : Dict (List ℕ))
    → subscribers event (insert k cs d) ≡ (if k == event then cs else subscribers event d)
unfolding subscribers
subscribers-insert k event cs d =
    rw (subscribers, lookup-insert k event cs d)
      (elim (Bool-cases (k == event)) [ inl hit ↦ rw hit refl | inr miss ↦ rw miss refl ])

subscribers-erase :
    (k event : String) (d : Dict (List ℕ))
    → subscribers event (erase k d) ≡ (if k == event then [] else subscribers event d)
unfolding subscribers
subscribers-erase k event d =
    rw (subscribers, lookup-erase k event d)
      (elim (Bool-cases (k == event)) [ inl hit ↦ rw hit refl | inr miss ↦ rw miss refl ])

and_true : (x : Bool) → (x && true) ≡ x
and_true true = refl
and_true false = refl

and_false : (x : Bool) → (x && false) ≡ false
and_false true = refl
and_false false = refl

empty : {A : Type 0} → (l : List A) → (length l == 0) ≡ true → l ≡ []
empty [] e = refl
empty (x ∷ l) e = absurd (ground arith)

module _ (c : ℕ) (event : String) (h : Hub) where
  -- The pair of client and event that an operation is about.
  abbrev about : ℕ → String → Bool
  about d k = (event == k) && (c == d)

  subscribers-subscribe :
      (d : ℕ) (k : String)
      → member d (subscribers k (subscribe c event h).subscriptions)
        ≡ (about d k || member d (subscribers k h.subscriptions))
  unfolding subscribe
  subscribers-subscribe d k =
      let cs : List ℕ = subscribers event h.subscriptions in
      ap (λ (l : List ℕ). member d l) (subscribers-insert event k (add c cs) h.subscriptions)
      ∙ elim (Bool-cases (event == k)) [
        | inl hit ↦
            let same : event ≡ k = (string_eq.beq_iff event k).0 hit in
            rw hit (
              member-add c d cs
              ∙ ap (λ (x : String). (c == d) || member d (subscribers x h.subscriptions)) same)
        | inr miss ↦ rw miss refl
      ]

  subscriptions-subscribe :
      (d : ℕ) (k : String)
      → (event == "") ≡ false
      → member k ((subscribe c event h).heap d).subscriptions
        ≡ (about d k || member k (h.heap d).subscriptions)
  unfolding subscribe client_subscribe
  subscriptions-subscribe d k named = elim (Bool-cases (c == d)) [
    | inl me ↦
        let same : d ≡ c = sym ((nat_eq.beq_iff c d).0 me) in
        let back : (d == c) ≡ true = (nat_eq.beq_iff d c).1 same in
        rw (back, named, me)
          (member-add event k (h.heap d).subscriptions
            ∙ ap (λ (x : Bool). x || member k (h.heap d).subscriptions)
                (sym (and_true (event == k))))
    | inr you ↦
        let back : (d == c) ≡ false = ground (arith, nat_eq.beq_iff c d, nat_eq.beq_iff d c) in
        rw (back, you)
          (ap (λ (x : Bool). x || member k (h.heap d).subscriptions) (sym (and_false (event == k))))
  ]

  subscribers-unsubscribe :
      (cs : List ℕ) (d : ℕ) (k : String)
      → lookup event h.subscriptions ≡ some cs
      → member d (subscribers k (unsubscribe c event h).subscriptions)
        ≡ (not (about d k) && member d (subscribers k h.subscriptions))
  unfolding unsubscribe subscribers
  subscribers-unsubscribe cs d k found =
      let left : (event == k) ≡ true
          → member d (remove c cs) ≡ (not (c == d) && member d (subscribers k h.subscriptions)) =
        λ hit.
          member-remove c d cs
          ∙ ap
              (λ (l : Option (List ℕ)).
                not (c == d) && member d (elim l [ none ↦ [] | some x ↦ x ]))
              (sym found)
          ∙ ap (λ (x : String). not (c == d) && member d (subscribers x h.subscriptions))
              ((string_eq.beq_iff event k).0 hit) in
      elim (Bool-cases (length (remove c cs) == 0)) [
        | inl nobody ↦
            rw (unsubscribe, found, nobody)
              (ap (λ (l : List ℕ). member d l) (subscribers-erase event k h.subscriptions)
                ∙ elim (Bool-cases (event == k)) [
                  | inl hit ↦ rw hit (
                      ap (λ (l : List ℕ). member d l) (sym (empty (remove c cs) nobody)) ∙ left hit)
                  | inr miss ↦ rw miss refl
                ])
        | inr somebody ↦
            rw (unsubscribe, found, somebody)
              (ap (λ (l : List ℕ). member d l)
                  (subscribers-insert event k (remove c cs) h.subscriptions)
                ∙ elim (Bool-cases (event == k)) [
                  | inl hit ↦ rw hit (left hit)
                  | inr miss ↦ rw miss refl
                ])
      ]

  subscriptions-unsubscribe :
      (cs : List ℕ) (d : ℕ) (k : String)
      → lookup event h.subscriptions ≡ some cs
      → member k ((unsubscribe c event h).heap d).subscriptions
        ≡ (not (about d k) && member k (h.heap d).subscriptions)
  unfolding unsubscribe client_unsubscribe
  subscriptions-unsubscribe cs d k found = elim (Bool-cases (c == d)) [
    | inl me ↦
        let same : d ≡ c = sym ((nat_eq.beq_iff c d).0 me) in
        let back : (d == c) ≡ true = (nat_eq.beq_iff d c).1 same in
        rw (unsubscribe, found, back, me)
          (member-remove event k (h.heap d).subscriptions
            ∙ ap (λ (x : Bool). not x && member k (h.heap d).subscriptions)
                (sym (and_true (event == k))))
    | inr you ↦
        let back : (d == c) ≡ false = ground (arith, nat_eq.beq_iff c d, nat_eq.beq_iff d c) in
        rw (unsubscribe, found, back, you)
          (ap (λ (x : Bool). not x && member k (h.heap d).subscriptions)
            (sym (and_false (event == k))))
  ]

-- A subscription to an event keeps the two records in agreement; the event's id is not empty.
pub subscribe-Agrees :
    (c : ℕ) (event : String) (h : Hub)
    → (event == "") ≡ false
    → Agrees h
    → Agrees (subscribe c event h)
subscribe-Agrees c event h named v d k =
    subscribers-subscribe c event h d k
    ∙ ap (λ (b : Bool). about c event h d k || b) (v d k)
    ∙ sym (subscriptions-subscribe c event h d k named)

-- Giving up a subscription keeps the two records in agreement.
pub unsubscribe-Agrees :
    (c : ℕ) (event : String) (h : Hub) → Agrees h → Agrees (unsubscribe c event h)
unfolding unsubscribe
unsubscribe-Agrees c event h v d k = elim (Option-cases (lookup event h.subscriptions)) [
  | inl missing ↦ rw (unsubscribe, missing) (v d k)
  | inr (cs, found) ↦
      subscribers-unsubscribe c event h cs d k found
      ∙ ap (λ (b : Bool). not (about c event h d k) && b) (v d k)
      ∙ sym (subscriptions-unsubscribe c event h cs d k found)
]
