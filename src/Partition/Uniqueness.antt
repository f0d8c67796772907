-- ===== src/Partition/Uniqueness.antt =====
-- The fence holds: of the engines that believe they own a partition, the database worker accepts at
-- most one.
use predix_go_backend.Base.{
  ℕ, suc, ◌<◌, ◌≤◌, ◌≡◌, ◌≢◌, ap, ◌∙◌, String, true, false, Option, none, some, arith, ◌==◌,
  string_eq, nat_eq, Bool-cases, inl, inr, ◌⊎◌,
}
use predix_go_backend.DbWorker.{fencing_stale}
use predix_go_backend.Partition.Lease.{
  Redis, next_token, acquire-counter, renew-counter, release-counter,
}
use predix_go_backend.Partition.Ownership.{
  Phase, Cluster, move, Step, acquired, refused, unheard, fenced, no_token, unheard_token, renewed,
  lost, released, stopped, elapsed, Reach, here, next,
}

-- The token that the engine stamps its events with.
abbrev pub token_of : Phase → Option ℕ
token_of Phase.waiting = none
token_of Phase.leased = none
token_of (Phase.consuming n) = some n
token_of (Phase.yielding n) = some n

module _ {S : Type 0} (r : Redis S) where
  -- Tokens are positive, no more than the counter, and no two engines have the same.
  record HasOwnTokens (c : Cluster S) : Type 0 where
    bound : (e : String) (n : ℕ) → token_of (c.phase e) ≡ some n → (0 < n) × (n ≤ r.counter c.store)
    distinct :
        (a b : String) (m n : ℕ)
        → (a == b) ≡ false
        → token_of (c.phase a) ≡ some m
        → token_of (c.phase b) ≡ some n
        → m ≢ n

  -- An engine that keeps its token or gives it up, while the counter does not fall.
  quiet :
      (e : String) (p : Phase) (s : S) (c : Cluster S)
      → ((n : ℕ) → token_of p ≡ some n → token_of (c.phase e) ≡ some n)
      → r.counter c.store ≤ r.counter s
      → HasOwnTokens c
      → HasOwnTokens (move e p s c)
  quiet e p s c keeps le v =
      let old : (a : String) (n : ℕ)
          → token_of ((move e p s c).phase a) ≡ some n
          → token_of (c.phase a) ≡ some n =
        λ a n h. elim (Bool-cases (a == e)) [
          | inl hit ↦
              ap (λ (x : String). token_of (c.phase x)) ((string_eq.beq_iff a e).0 hit)
              ∙ keeps n (rw hit at h)
          | inr miss ↦ rw miss at h
        ] in
      record {
        bound = λ a n h. let b = v.bound a n (old a n h) in (b.0, omega (arith, b.1, le));
        distinct = λ a b m n ne h k. v.distinct a b m n ne (old a m h) (old b n k);
      }

  some_eq : (m n : ℕ) → some m ≡ some n → m ≡ n
  some_eq m n e = ground arith

  -- The engine that takes a token gets one that nobody has.
  fresh :
      (e : String) (c : Cluster S)
      → HasOwnTokens c
      → HasOwnTokens (move e (Phase.consuming (next_token r c.store).0) (next_token r c.store).1 c)
  unfolding next_token
  fresh e c v =
      let value = r.incr-value c.store in
      let count = r.incr-counter c.store in
      record {
        bound = λ a n h. elim (Bool-cases (a == e)) [
          | inl hit ↦
              let same = some_eq (r.incr c.store).0 n (rw hit at h) in
              (omega (arith, same, value), omega (arith, same, value, count))
          | inr miss ↦ let b = v.bound a n (rw miss at h) in (b.0, omega (arith, b.1, count))
        ];
        distinct = λ a b m n ne h k. elim (Bool-cases (a == e)) [
          | inl hit ↦ elim (Bool-cases (b == e)) [
            | inl also ↦ absurd (
                ground (
                  arith,
                  string_eq.beq_iff a e,
                  string_eq.beq_iff b e,
                  string_eq.beq_iff a b,
                  hit,
                  also,
                  ne,
                ))
            | inr miss ↦
                let same = some_eq (r.incr c.store).0 m (rw hit at h) in
                let b' = v.bound b n (rw miss at k) in λ eq. omega (arith, same, value, b'.1, eq)
          ]
          | inr miss ↦ elim (Bool-cases (b == e)) [
            | inl hit ↦
                let same = some_eq (r.incr c.store).0 n (rw hit at k) in
                let a' = v.bound a m (rw miss at h) in λ eq. omega (arith, same, value, a'.1, eq)
            | inr also ↦ v.distinct a b m n ne (rw miss at h) (rw also at k)
          ]
        ];
      }

  next_token-counter : (s : S) → r.counter (next_token r s).1 ≡ suc (r.counter s)
  unfolding next_token
  next_token-counter s = r.incr-counter s

  no_token_of : (p : Phase) (n : ℕ) → none ≡ some n → token_of p ≡ some n
  no_token_of p n e = absurd (ground arith)

  Step-HasOwnTokens :
      {ttl : ℕ} {c c' : Cluster S} → Step r ttl c c' → HasOwnTokens c → HasOwnTokens c'
  Step-HasOwnTokens {ttl} {c} (acquired e w g) v =
      quiet e Phase.leased _ c (no_token_of (c.phase e))
        (omega (arith, acquire-counter r e ttl c.store)) v
  Step-HasOwnTokens {ttl} {c} (refused e w g) v =
      quiet e Phase.waiting _ c (no_token_of (c.phase e))
        (omega (arith, acquire-counter r e ttl c.store)) v
  Step-HasOwnTokens {ttl} {c} (unheard e w) v =
      quiet e Phase.waiting _ c (no_token_of (c.phase e))
        (omega (arith, acquire-counter r e ttl c.store)) v
  Step-HasOwnTokens {ttl} {c} (fenced e w) v = fresh e c v
  Step-HasOwnTokens {ttl} {c} (no_token e w) v =
      quiet e Phase.waiting _ c (no_token_of (c.phase e))
        (omega (arith, release-counter r e c.store)) v
  Step-HasOwnTokens {ttl} {c} (unheard_token e w) v =
      quiet e Phase.waiting _ c (no_token_of (c.phase e))
        (omega (arith, release-counter r e (next_token r c.store).1, next_token-counter c.store)) v
  Step-HasOwnTokens {ttl} {c} (renewed e n w g) v =
      quiet e (Phase.consuming n) _ c (λ m h. ap token_of w ∙ h)
        (omega (arith, renew-counter r e ttl c.store)) v
  Step-HasOwnTokens {ttl} {c} (lost e n w g) v =
      quiet e (Phase.yielding n) _ c (λ m h. ap token_of w ∙ h)
        (omega (arith, renew-counter r e ttl c.store)) v
  Step-HasOwnTokens {ttl} {c} (released e n w) v =
      quiet e Phase.waiting _ c (no_token_of (c.phase e))
        (omega (arith, release-counter r e c.store)) v
  Step-HasOwnTokens {ttl} {c} (stopped e n w) v =
      quiet e Phase.waiting _ c (no_token_of (c.phase e))
        (omega (arith, release-counter r e c.store)) v
  Step-HasOwnTokens {ttl} {c} (elapsed t) v = record {
    bound = λ e n h. let b = v.bound e n h in (b.0, omega (arith, b.1, r.elapse-counter t c.store));
    distinct = v.distinct;
  }

  Reach-HasOwnTokens : {ttl : ℕ} {start : S} {c : Cluster S} → Reach r ttl start c → HasOwnTokens c
  Reach-HasOwnTokens here = record {
    bound = λ e n h. absurd (ground arith);
    distinct = λ a b m n ne h k. absurd (ground arith);
  }
  Reach-HasOwnTokens (next before step) = Step-HasOwnTokens step (Reach-HasOwnTokens before)

-- Of two engines that stamp events with a token, at least one is stale for the database worker, by
-- the partition's counter, in every state that the engines' loops can reach, in whatever order their
-- steps and the loss of leases come.
pub one_of_two_stale :
    {S : Type 0} (r : Redis S) (ttl : ℕ) (start : S) (c : Cluster S) (a b : String) (m n : ℕ)
    → Reach r ttl start c
    → (a == b) ≡ false
    → token_of (c.phase a) ≡ some m
    → token_of (c.phase b) ≡ some n
    → (fencing_stale m (r.counter c.store) ≡ true) ⊎ (fencing_stale n (r.counter c.store) ≡ true)
unfolding fencing_stale
one_of_two_stale r ttl start c a b m n reached ne h k =
    let v = Reach-HasOwnTokens r reached in
    let x = v.bound a m h in
    let y = v.bound b n k in let apart = v.distinct a b m n ne h k in ground (arith, x, y, apart)
