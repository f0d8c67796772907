-- ===== src/Partition/Examples.antt =====
-- Two engines: the first loses its lease without noticing, the second takes over.
use predix_go_backend.Base.{ℕ, suc, ◌≡◌, refl, ◌⊎◌, String, Bool, true, false, Option, none, some}
use predix_go_backend.DbWorker.{fencing_stale}
use predix_go_backend.Partition.Lease.{Redis, acquire, next_token}
use predix_go_backend.Partition.Ownership.{
  Phase, Cluster, move, Reach, here, next, acquired, fenced, elapsed,
}
use predix_go_backend.Partition.Uniqueness.{one_of_two_stale}

-- The lease key's value and the counter; a lease lasts until time passes.
abbrev Keys : Type 0
Keys = Option String × ℕ

abbrev take_if_free : String → Keys → Bool × Keys
take_if_free v (none, n) = (true, (some v, n))
take_if_free v (some w, n) = (false, (some w, n))

take_if_free-counter : (v : String) (s : Keys) → (take_if_free v s).1.1 ≡ s.1
take_if_free-counter v (none, n) = refl
take_if_free-counter v (some w, n) = refl

abbrev keys : Redis Keys
keys = record {
  get = λ s. s.0;
  counter = λ s. s.1;
  set_nx = λ v ttl s. take_if_free v s;
  pexpire = λ ttl s. s;
  del = λ s. (none, s.1);
  incr = λ s. (suc s.1, (s.0, suc s.1));
  elapse = λ t s. (none, s.1);
  set_nx-counter = λ v ttl s. take_if_free-counter v s;
  pexpire-counter = λ ttl s. refl;
  del-counter = λ s. refl;
  elapse-counter = λ t s. refl;
  incr-counter = λ s. refl;
  incr-value = λ s. refl;
}

abbrev at_start : Cluster Keys
at_start = record { store = (none, 0); phase = λ e. Phase.waiting }

abbrev a_leased : Cluster Keys
a_leased = move "a" Phase.leased (some "a", 0) at_start

abbrev a_consumes : Cluster Keys
a_consumes = move "a" (Phase.consuming 1) (some "a", 1) a_leased

abbrev expired : Cluster Keys
expired = record { store = (none, 1); phase = a_consumes.phase }

abbrev b_leased : Cluster Keys
b_leased = move "b" Phase.leased (some "b", 1) expired

abbrev both : Cluster Keys
both = move "b" (Phase.consuming 2) (some "b", 2) b_leased

takeover : Reach keys 10 (none, 0) both
unfolding acquire next_token
takeover =
    next
      (next (next (next (next here (acquired "a" refl refl)) (fenced "a" refl)) (elapsed 1))
        (acquired "b" refl refl))
      (fenced "b" refl)

one_of_two_stale_example : (fencing_stale 1 2 ≡ true) ⊎ (fencing_stale 2 2 ≡ true)
one_of_two_stale_example =
    one_of_two_stale keys 10 (none, 0) both "a" "b" 1 2 takeover refl refl refl
