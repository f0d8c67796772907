-- ===== src/Partition/Lease.antt =====
-- internal/partition/lease.go and fencing.go. Redis is a parameter: the commands that the lease
-- calls, on the partition's lease key and its token counter, with what their documentation says.
use predix_go_backend.Base.{
  ℕ, suc, ◌≡◌, String, Bool, true, false, Option, none, some, ◌==◌, string_eq, arith, if◌then◌else◌,
}

pub record Redis (S : Type 0) : Type 0 where
  -- The lease key's value, and the counter.
  pub get : S → Option String
  pub counter : S → ℕ
  -- SET NX PX, PEXPIRE and DEL on the lease key, INCR on the counter, and time that passes.
  pub set_nx : String → ℕ → S → Bool × S
  pub pexpire : ℕ → S → S
  pub del : S → S
  pub incr : S → ℕ × S
  pub elapse : ℕ → S → S
  pub set_nx-counter : (v : String) (ttl : ℕ) (s : S) → counter (set_nx v ttl s).1 ≡ counter s
  pub pexpire-counter : (ttl : ℕ) (s : S) → counter (pexpire ttl s) ≡ counter s
  pub del-counter : (s : S) → counter (del s) ≡ counter s
  pub elapse-counter : (t : ℕ) (s : S) → counter (elapse t s) ≡ counter s
  pub incr-counter : (s : S) → counter (incr s).1 ≡ suc (counter s)
  pub incr-value : (s : S) → (incr s).0 ≡ suc (counter s)

-- The lease key holds this engine's id.
abbrev pub owned_by : String → Option String → Bool
owned_by engine none = false
owned_by engine (some other) = other == engine

module _ {S : Type 0} (r : Redis S) where
  unfoldable pub acquire : String → ℕ → S → Bool × S
  acquire engine ttl s = r.set_nx engine ttl s

  -- The scripts compareAndRenew and compareAndRelease.
  unfoldable pub renew : String → ℕ → S → Bool × S
  renew engine ttl s = if owned_by engine (r.get s) then (true, r.pexpire ttl s) else (false, s)

  unfoldable pub release : String → S → S
  release engine s = if owned_by engine (r.get s) then r.del s else s

  unfoldable pub next_token : S → ℕ × S
  next_token s = r.incr s

  pub acquire-counter :
      (engine : String) (ttl : ℕ) (s : S) → r.counter (acquire engine ttl s).1 ≡ r.counter s
  unfolding acquire
  acquire-counter engine ttl s = r.set_nx-counter engine ttl s

  pub renew-counter :
      (engine : String) (ttl : ℕ) (s : S) → r.counter (renew engine ttl s).1 ≡ r.counter s
  unfolding renew
  renew-counter engine ttl s = ground (arith, r.pexpire-counter ttl s)

  pub release-counter : (engine : String) (s : S) → r.counter (release engine s) ≡ r.counter s
  unfolding release
  release-counter engine s = ground (arith, r.del-counter s)
