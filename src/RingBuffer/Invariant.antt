-- ===== src/RingBuffer/Invariant.antt =====
-- What holds of the buffer of ring_buffer.py between two calls.
use isales_telephony.Base.{
  ℕ, ◌+◌, ◌-◌, ◌≤◌, ◌<◌, ◌≡◌, ◌⊎◌, inl, inr, List, [], ◌∷◌, ◌++◌, some, ok, arith, length,
}
use isales_telephony.RingBuffer.{Bytes, Ring, new, evict, enqueue, put, pop, get_nowait}

unfoldable pub total : List Bytes → ℕ
total [] = 0
total (c ∷ cs) = length c + total cs

pub total-append : (xs ys : List Bytes) → total (xs ++ ys) ≡ total xs + total ys
unfolding total
total-append [] ys = omega arith
total-append (c ∷ cs) ys = omega (arith, total-append cs ys)

pub total-singleton : (c : Bytes) → total (c ∷ []) ≡ length c
unfolding total
total-singleton c = omega arith

-- The stored size is the number of bytes queued, and never passes the capacity.
pub record IsValid (r : Ring) : Type 0 where
  pub exact : r.size ≡ total r.chunks
  pub fits : r.size ≤ r.capacity

pub new-IsValid : (capacity : ℕ) {r : Ring} → new capacity ≡ ok r → IsValid r
unfolding new total
new-IsValid capacity h = ground arith

-- after the loop the sizes agree and a chunk of `n` bytes fits
pub evict_fits :
    (n : ℕ) (cs : List Bytes) (r : Ring)
    → r.size ≡ total cs
    → n ≤ r.capacity
    → ((evict n cs r).size ≡ total (evict n cs r).chunks)
      × ((evict n cs r).size + n ≤ r.capacity)
      × ((evict n cs r).capacity ≡ r.capacity)
unfolding evict total
evict_fits n [] r e h = ground arith
evict_fits n (c ∷ cs) r e h = ground (
  arith,
  evict_fits n cs (record r {
    size = r.size - length c;
    dropped_chunks = r.dropped_chunks + 1;
    dropped_bytes = r.dropped_bytes + length c;
  }),
)

pub enqueue-IsValid :
    (chunk : Bytes) (r : Ring)
    → r.size ≡ total r.chunks
    → r.size + length chunk ≤ r.capacity
    → IsValid (enqueue chunk r)
unfolding enqueue
enqueue-IsValid chunk r e h =
    omega (arith, total-append r.chunks (chunk ∷ []), total-singleton chunk)

-- what an accepted `put` does: an oversized chunk is only counted, any other is queued
pub put-eq-ok :
    (chunk : Bytes) (r : Ring) {s : Ring}
    → put chunk r ≡ ok s
    → (r.capacity < length chunk)
        × (s ≡ record r {
          dropped_chunks = r.dropped_chunks + 1;
          dropped_bytes = r.dropped_bytes + length chunk;
        })
      ⊎ (length chunk ≤ r.capacity) × (s ≡ enqueue chunk (evict (length chunk) r.chunks r))
unfolding put
put-eq-ok chunk r h = ground arith

queued-IsValid :
    (chunk : Bytes) (r : Ring)
    → IsValid r
    → length chunk ≤ r.capacity
    → IsValid (enqueue chunk (evict (length chunk) r.chunks r))
queued-IsValid chunk r v small =
    let (exact, room, same) = evict_fits (length chunk) r.chunks r v.exact small in
    enqueue-IsValid chunk (evict (length chunk) r.chunks r) exact (omega arith)

-- `put` keeps the invariant, whether the chunk is queued, dropped or makes others go
pub put-IsValid : (chunk : Bytes) (r : Ring) {s : Ring} → IsValid r → put chunk r ≡ ok s → IsValid s
put-IsValid chunk r v h = elim (put-eq-ok chunk r h) [
  | inl (_, e) ↦ rw e (record { exact = v.exact; fits = v.fits })
  | inr (small, e) ↦ rw e (queued-IsValid chunk r v small)
]

-- taking a chunk keeps the invariant
pub get_nowait-IsValid :
    (r : Ring) {chunk : Bytes} {s : Ring} → IsValid r → get_nowait r ≡ some (chunk, s) → IsValid s
unfolding get_nowait pop total
get_nowait-IsValid r v h = ground arith
