-- ===== src/RingBuffer/Eviction.antt =====
-- What the drop-oldest loop of `PcmRingBuffer.put` drops.
use isales_telephony.Base.{
  ℕ, zero, suc, ◌+◌, ◌-◌, ◌≤◌, ◌<◌, ◌≡◌, refl, false, List, [], ◌∷◌, ◌++◌, ok, arith, length, take,
  drop, Bool-cases, inl, inr, ltb, ltb→lt, ap,
}
use isales_telephony.RingBuffer.{Bytes, Ring, evict, enqueue, put}
use isales_telephony.RingBuffer.Invariant.{total, IsValid}

-- `s` is `r` after its `count` oldest chunks are gone, and no fewer would have made room.
pub record Evicts (n : ℕ) (cs : List Bytes) (r s : Ring) : Type 0 where
  pub count : ℕ
  pub chunks : s.chunks ≡ drop count cs
  pub chunks_counted : s.dropped_chunks ≡ r.dropped_chunks + count
  pub bytes_counted : s.dropped_bytes ≡ r.dropped_bytes + total (take count cs)
  pub needed : (k : ℕ) → k < count → r.capacity < total (drop k cs) + n

abbrev dropped : Bytes → Ring → Ring
dropped c r = record r {
  size = r.size - length c;
  dropped_chunks = r.dropped_chunks + 1;
  dropped_bytes = r.dropped_bytes + length c;
}

none_evicted : (n : ℕ) (cs : List Bytes) (r : Ring) → Evicts n cs r (record r { chunks = cs })
unfolding total
none_evicted n cs r = record {
  count = 0;
  chunks = refl;
  chunks_counted = omega arith;
  bytes_counted = omega arith;
  needed = λ k lt. elim lt [ ];
}

one_more :
    (n : ℕ) (c : Bytes) (cs : List Bytes) (r s : Ring)
    → r.size ≡ total (c ∷ cs)
    → r.capacity < r.size + n
    → Evicts n cs (dropped c r) s
    → Evicts n (c ∷ cs) r s
unfolding total
one_more n c cs r s e over h = record {
  count = suc h.count;
  chunks = h.chunks;
  chunks_counted = omega (arith, h.chunks_counted);
  bytes_counted = omega (arith, h.bytes_counted);
  needed = least;
}
  where
    least : (k : ℕ) → k < suc h.count → r.capacity < total (drop k (c ∷ cs)) + n
    least zero lt = omega arith
    least (suc k) lt = h.needed k (omega arith)

pub evict-Evicts :
    (n : ℕ) (cs : List Bytes) (r : Ring) → r.size ≡ total cs → Evicts n cs r (evict n cs r)
unfolding evict total
evict-Evicts n [] r e = none_evicted n [] r
evict-Evicts n (c ∷ cs) r e = elim (Bool-cases (ltb r.capacity (r.size + n))) [
  | inl over ↦
      rw over
        (one_more n c cs r _ e (ltb→lt _ _ over) (evict-Evicts n cs (dropped c r) (omega arith)))
  | inr room ↦ rw room (none_evicted n (c ∷ cs) r)
]

-- What a `put` that queues its chunk has done, seen from outside.
pub record Queued (chunk : Bytes) (r s : Ring) : Type 0 where
  pub count : ℕ
  pub chunks : s.chunks ≡ drop count r.chunks ++ chunk ∷ []
  pub chunks_counted : s.dropped_chunks ≡ r.dropped_chunks + count
  pub bytes_counted : s.dropped_bytes ≡ r.dropped_bytes + total (take count r.chunks)
  pub needed : (k : ℕ) → k < count → r.capacity < total (drop k r.chunks) + length chunk

pub Queued-enqueue :
    (chunk : Bytes) (r : Ring)
    → IsValid r
    → Queued chunk r (enqueue chunk (evict (length chunk) r.chunks r))
unfolding enqueue
Queued-enqueue chunk r v =
    let e = evict-Evicts (length chunk) r.chunks r v.exact in
    record {
      count = e.count;
      chunks = ap (λ (l : List Bytes). l ++ chunk ∷ []) e.chunks;
      chunks_counted = e.chunks_counted;
      bytes_counted = e.bytes_counted;
      needed = e.needed;
    }

-- On an open buffer in a valid state a chunk that fits the capacity is always queued, behind the
-- chunks that stay; the oldest go first, each is counted, and no more go than make room.
put-Queued :
    (chunk : Bytes) (r : Ring)
    → IsValid r
    → r.closed ≡ false
    → length chunk ≤ r.capacity
    → (s : Ring) × (put chunk r ≡ ok s) × Queued chunk r s
unfolding put
put-Queued chunk r v still_open small =
    (enqueue chunk (evict (length chunk) r.chunks r), ground arith, Queued-enqueue chunk r v)
