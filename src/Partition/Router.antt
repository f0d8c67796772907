-- ===== src/Partition/Router.antt =====
-- internal/partition/router.go: the partition of an event, by the FNV-1a hash of its id's bytes.
use predix_go_backend.Base.{
  ℕ, ◌*◌, ◌%◌, ◌^◌, ◌<◌, String, List, [], ◌∷◌, arith, ◌==◌, string_eq, if◌then◌else◌, ℤ, pos,
  ltb_ℤ, pos_part,
}
use Prim.Native.Nat.{bit_xor}

pub record Router : Type 0 where
  pub partitions : ℤ
  pub stream_prefix : String

unfoldable pub new_router : ℤ → String → Router
new_router partitions prefix = record {
  partitions = if ltb_ℤ partitions (pos 1) then pos 1 else partitions;
  stream_prefix = if prefix == "" then "commands" else prefix;
}

-- `fnv.New64a`: the offset basis, and for each byte an exclusive or and a product modulo 2 ^ 64.
unfoldable pub hash_from : ℕ → List ℕ → ℕ
hash_from h [] = h
hash_from h (b ∷ bs) = hash_from (bit_xor h b * 1099511628211 % 2 ^ 64) bs

unfoldable pub hash64 : List ℕ → ℕ
unfolding hash_from
hash64 bytes = hash_from 14695981039346656037 bytes

-- The partition of an event, whose id has these bytes.
unfoldable pub partition : Router → List ℕ → ℕ
unfolding hash64
partition r bytes = hash64 bytes % pos_part r.partitions

-- A router, whatever number of partitions it is asked for, has at least one and routes every event
-- to one of its partitions.
pub partition-lt-partitions :
    (partitions : ℤ) (prefix : String) (bytes : List ℕ)
    → partition (new_router partitions prefix) bytes
      < pos_part (new_router partitions prefix).partitions
unfolding partition new_router
partition-lt-partitions partitions prefix bytes = ground arith
