-- ===== src/Session/RequestIds.antt =====
-- moqt-core/src/session/mod.rs, RequestIdAllocator: `fetch_add(2)` on an AtomicU64, which wraps.
use moqt_minimal.Prelude.{ℕ, zero, suc, ◌+◌, ◌*◌, ◌%◌, ◌^◌, ◌<◌, ◌≡◌, ◌≢◌, arith}

pub record RequestIdAllocator : Type 0 where
  pub next_id : ℕ

abbrev pub client : RequestIdAllocator
client = record { next_id = 0 }

abbrev pub server : RequestIdAllocator
server = record { next_id = 1 }

unfoldable pub allocate : RequestIdAllocator → ℕ × RequestIdAllocator
allocate a = (a.next_id, record { next_id = (a.next_id + 2) % 2 ^ 64 })

-- The id of the request that comes after `n` others.
unfoldable pub allocated : ℕ → RequestIdAllocator → ℕ
unfolding allocate
allocated zero a = (allocate a).0
allocated (suc n) a = allocated n (allocate a).1

-- In closed form.
allocated_lem :
    (n : ℕ) (a : RequestIdAllocator)
    → a.next_id < 2 ^ 64
    → allocated n a ≡ (a.next_id + 2 * n) % 2 ^ 64
unfolding allocated allocate
allocated_lem zero a h = omega arith
allocated_lem (suc n) a h =
    omega (arith, allocated_lem n (record { next_id = (a.next_id + 2) % 2 ^ 64 }) (omega arith))

-- No id of a client is ever the id of a server, whatever number of requests each has made.
pub allocated-apart : (m n : ℕ) → allocated m client ≢ allocated n server
allocated-apart m n e =
    absurd
      (omega (arith, allocated_lem m client (omega arith), allocated_lem n server (omega arith)))

-- Two of the first 2^63 requests of a client, or of a server, do not have one id.
pub allocated-distinct :
    (a : RequestIdAllocator) (m n : ℕ)
    → a.next_id < 2
    → m < 2 ^ 63
    → n < 2 ^ 63
    → allocated m a ≡ allocated n a
    → m ≡ n
allocated-distinct a m n start hm hn e =
    omega (arith, allocated_lem m a (omega arith), allocated_lem n a (omega arith))
