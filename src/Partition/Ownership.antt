-- ===== src/Partition/Ownership.antt =====
-- `runPartition` and `renewLease` of internal/engine/worker.go, for the engines that compete for one
-- partition, as steps. A step is one Redis command with what the loop does on its outcome; the steps
-- of different engines come in any order.
use predix_go_backend.Base.{ℕ, ◌≡◌, String, true, false, ◌==◌, string_eq, if◌then◌else◌}
use predix_go_backend.Partition.Lease.{Redis, acquire, renew, release, next_token}

-- Where an engine is in its loop: it waits for the lease; it has it and no token; it consumes
-- commands with its token; it has noticed that the lease is lost and still drains its consumer.
pub data Phase : Type 0 where
  waiting leased : Phase
  consuming yielding : ℕ → Phase

pub record Cluster (S : Type 0) : Type 0 where
  pub store : S
  pub phase : String → Phase

abbrev pub move : {S : Type 0} → String → Phase → S → Cluster S → Cluster S
move engine p s c = record { store = s; phase = λ e. if e == engine then p else c.phase e }

pub data Step {S : Type 0} (r : Redis S) (ttl : ℕ) (c : Cluster S) : Cluster S → Type 0 where
  acquired :
      (e : String)
      → c.phase e ≡ Phase.waiting
      → (acquire r e ttl c.store).0 ≡ true
      → Step r ttl c (move e Phase.leased (acquire r e ttl c.store).1 c)
  refused :
      (e : String)
      → c.phase e ≡ Phase.waiting
      → (acquire r e ttl c.store).0 ≡ false
      → Step r ttl c (move e Phase.waiting (acquire r e ttl c.store).1 c)
  -- The reply to the command was lost.
  unheard :
      (e : String)
      → c.phase e ≡ Phase.waiting
      → Step r ttl c (move e Phase.waiting (acquire r e ttl c.store).1 c)
  fenced :
      (e : String)
      → c.phase e ≡ Phase.leased
      → Step r ttl c (move e (Phase.consuming (next_token r c.store).0) (next_token r c.store).1 c)
  no_token :
      (e : String)
      → c.phase e ≡ Phase.leased
      → Step r ttl c (move e Phase.waiting (release r e c.store) c)
  unheard_token :
      (e : String)
      → c.phase e ≡ Phase.leased
      → Step r ttl c (move e Phase.waiting (release r e (next_token r c.store).1) c)
  renewed :
      (e : String) (n : ℕ)
      → c.phase e ≡ Phase.consuming n
      → (renew r e ttl c.store).0 ≡ true
      → Step r ttl c (move e (Phase.consuming n) (renew r e ttl c.store).1 c)
  lost :
      (e : String) (n : ℕ)
      → c.phase e ≡ Phase.consuming n
      → (renew r e ttl c.store).0 ≡ false
      → Step r ttl c (move e (Phase.yielding n) (renew r e ttl c.store).1 c)
  released :
      (e : String) (n : ℕ)
      → c.phase e ≡ Phase.yielding n
      → Step r ttl c (move e Phase.waiting (release r e c.store) c)
  -- The consumer ended for another reason.
  stopped :
      (e : String) (n : ℕ)
      → c.phase e ≡ Phase.consuming n
      → Step r ttl c (move e Phase.waiting (release r e c.store) c)
  elapsed : (t : ℕ) → Step r ttl c (record { store = r.elapse t c.store; phase = c.phase })

pub data Reach {S : Type 0} (r : Redis S) (ttl : ℕ) (start : S) : Cluster S → Type 0 where
  here : Reach r ttl start (record { store = start; phase = λ e. Phase.waiting })
  next : {c c' : Cluster S} → Reach r ttl start c → Step r ttl c c' → Reach r ttl start c'
