-- ===== src/RingBuffer/Traces.antt =====
-- Any sequence of calls on one buffer: what came in, what went out, and what was dropped.
use isales_telephony.Base.{
  ℕ, ◌+◌, ◌-◌, ◌≡◌, inl, inr, List, [], ◌∷◌, ◌++◌, some, none, Option, Outcome, ok, err, arith,
  length, take, drop, sym, ap, ◌∙◌, refl, append_assoc, take-append-drop, Thinned, leave_last,
  take_last, Thinned-drop, Thinned-trans, done,
}
use isales_telephony.RingBuffer.{Bytes, Ring, RingError, new, put, get_nowait, close, pop}
use isales_telephony.RingBuffer.Invariant.{
  total, total-append, total-singleton, IsValid, new-IsValid, put-IsValid, put-eq-ok,
}
use isales_telephony.RingBuffer.Eviction.{Queued, Queued-enqueue}

pub data Call : Type 0 where
  produce : Bytes → Call
  consume : Call
  shut : Call

-- The buffer, the chunks that `put` accepted and the chunks handed out, each in order.
pub record Session : Type 0 where
  pub ring : Ring
  pub accepted : List Bytes
  pub taken : List Bytes

unfoldable pub start : Ring → Session
start r = record { ring = r; accepted = []; taken = [] }

-- a `put` on a closed buffer raises, and the caller goes on with the buffer as it was
after_put : Bytes → Session → Outcome RingError Ring → Session
after_put c s (ok r) = record { ring = r; accepted = s.accepted ++ c ∷ []; taken = s.taken }
after_put c s (err _) = s

after_get : Session → Option (Bytes × Ring) → Session
after_get s (some (c, r)) = record { ring = r; accepted = s.accepted; taken = s.taken ++ c ∷ [] }
after_get s none = s

unfoldable pub step : Session → Call → Session
unfolding after_put after_get
step s (produce c) = after_put c s (put c s.ring)
step s consume = after_get s (get_nowait s.ring)
step s shut = record s { ring = close s.ring }

unfoldable pub run : Session → List Call → Session
run s [] = s
run s (c ∷ cs) = run (step s c) cs

-- Every accepted byte was handed out, was dropped, or is queued; order is kept.
pub record IsAccounted (s : Session) : Type 0 where
  pub valid : IsValid s.ring
  pub bytes : total s.accepted ≡ total s.taken + s.ring.dropped_bytes + s.ring.size
  pub in_order : Thinned (s.taken ++ s.ring.chunks) s.accepted

total-take-drop : (k : ℕ) (cs : List Bytes) → total (take k cs) + total (drop k cs) ≡ total cs
total-take-drop k cs = sym (total-append (take k cs) (drop k cs)) ∙ ap total (take-append-drop k cs)

fitting-IsAccounted :
    (s : Session) (c : Bytes) (r : Ring)
    → IsAccounted s
    → IsValid r
    → Queued c s.ring r
    → IsAccounted (record s { ring = r; accepted = s.accepted ++ c ∷ [] })
fitting-IsAccounted s c r h v q = record {
  valid = v;
  bytes = omega (
    arith,
    h.bytes,
    h.valid.exact,
    v.exact ∙ ap total q.chunks,
    q.bytes_counted,
    total-append s.accepted (c ∷ []),
    total-append (drop q.count s.ring.chunks) (c ∷ []),
    total-take-drop q.count s.ring.chunks,
  );
  in_order =
      rw (q.chunks, ← append_assoc)
        (take_last c (Thinned-trans (Thinned-drop q.count s.taken s.ring.chunks) h.in_order));
}

oversized-IsAccounted :
    (s : Session) (c : Bytes)
    → IsAccounted s
    → IsAccounted (record {
      ring = record (s.ring) {
        dropped_chunks = s.ring.dropped_chunks + 1;
        dropped_bytes = s.ring.dropped_bytes + length c;
      };
      accepted = s.accepted ++ c ∷ [];
      taken = s.taken;
    })
oversized-IsAccounted s c h = record {
  valid = record { exact = h.valid.exact; fits = h.valid.fits };
  bytes = omega (arith, h.bytes, total-append s.accepted (c ∷ []), total-singleton c);
  in_order = leave_last c h.in_order;
}

put-IsAccounted :
    (s : Session) (c : Bytes) (o : Outcome RingError Ring)
    → put c s.ring ≡ o
    → IsAccounted s
    → IsAccounted (after_put c s o)
unfolding after_put
put-IsAccounted s c (err _) e h = h
put-IsAccounted s c (ok r) e h = elim (put-eq-ok c s.ring e) [
  | inl (_, f) ↦ rw f (oversized-IsAccounted s c h)
  | inr (small, f) ↦
      fitting-IsAccounted s c r h (put-IsValid c s.ring h.valid e)
        (rw f (Queued-enqueue c s.ring h.valid))
]

taken-IsAccounted :
    (s : Session) (c : Bytes) (rest : List Bytes)
    → s.ring.chunks ≡ c ∷ rest
    → IsAccounted s
    → IsAccounted (record {
      ring = record (s.ring) { chunks = rest; size = s.ring.size - length c };
      accepted = s.accepted;
      taken = s.taken ++ c ∷ [];
    })
unfolding total
taken-IsAccounted s c rest e h =
    let sizes : s.ring.size ≡ length c + total rest = h.valid.exact ∙ ap total e in
    record {
      valid = record { exact = omega arith; fits = omega (arith, h.valid.fits) };
      bytes = omega (arith, h.bytes, total-append s.taken (c ∷ []), total-singleton c);
      in_order = rw append_assoc (rw e at h.in_order);
    }

get-IsAccounted :
    (s : Session) (cs : List Bytes)
    → s.ring.chunks ≡ cs
    → IsAccounted s
    → IsAccounted (after_get s (pop cs s.ring))
unfolding after_get pop
get-IsAccounted s [] e h = h
get-IsAccounted s (c ∷ rest) e h = taken-IsAccounted s c rest e h

step-IsAccounted : (s : Session) (c : Call) → IsAccounted s → IsAccounted (step s c)
unfolding step get_nowait close
step-IsAccounted s (produce c) h = put-IsAccounted s c (put c s.ring) refl h
step-IsAccounted s consume h = get-IsAccounted s s.ring.chunks refl h
step-IsAccounted s shut h = record {
  valid = record { exact = h.valid.exact; fits = h.valid.fits };
  bytes = h.bytes;
  in_order = h.in_order;
}

run-IsAccounted_from : (s : Session) (cs : List Call) → IsAccounted s → IsAccounted (run s cs)
unfolding run
run-IsAccounted_from s [] h = h
run-IsAccounted_from s (c ∷ cs) h = run-IsAccounted_from (step s c) cs (step-IsAccounted s c h)

start-IsAccounted : (capacity : ℕ) {r : Ring} → new capacity ≡ ok r → IsAccounted (start r)
unfolding new start total
start-IsAccounted capacity {r} h =
    let empty : (r.chunks ≡ []) × (r.size ≡ 0) × (r.dropped_bytes ≡ 0) = ground arith in
    record { valid = new-IsValid capacity h; bytes = omega arith; in_order = rw (empty.0) done }

-- From a new buffer, whatever the calls: the stored size is the number of bytes queued and stays
-- within the capacity, every byte of an accepted chunk was handed out, counted as dropped or is
-- queued, and the chunks handed out and queued are the accepted ones, some left out, in order.
pub run-IsAccounted :
    (capacity : ℕ) (cs : List Call) {r : Ring}
    → new capacity ≡ ok r
    → IsAccounted (run (start r) cs)
run-IsAccounted capacity cs {r} h = run-IsAccounted_from (start r) cs (start-IsAccounted capacity h)
