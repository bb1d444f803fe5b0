-- ===== src/RingBuffer/Samples.antt =====
-- Runs of the ring buffer on small inputs.
use isales_telephony.Base.{◌≡◌, refl, false, List, [], ◌∷◌, ok, err, arith}
use isales_telephony.RingBuffer.{
  Ring, runtime_error, value_error, new, evict, enqueue, put, get, stop_iteration, waits, close,
}
use isales_telephony.RingBuffer.Invariant.{IsValid, total}
use isales_telephony.RingBuffer.Traces.{
  Call, produce, consume, shut, start, run, IsAccounted, run-IsAccounted,
}

abbrev empty : Ring
empty = record {
  capacity = 4;
  chunks = [];
  size = 0;
  closed = false;
  dropped_chunks = 0;
  dropped_bytes = 0;
}

abbrev filled : Ring
filled = record {
  capacity = 4;
  chunks = (1 ∷ 2 ∷ []) ∷ (3 ∷ []) ∷ [];
  size = 3;
  closed = false;
  dropped_chunks = 0;
  dropped_bytes = 0;
}

new_runs : (new 4 ≡ ok empty) × (new 0 ≡ err value_error)
unfolding new
new_runs = (refl, refl)

put_runs :
    put (4 ∷ 5 ∷ []) filled
    ≡ ok (record filled {
      chunks = (3 ∷ []) ∷ (4 ∷ 5 ∷ []) ∷ [];
      dropped_chunks = 1;
      dropped_bytes = 2;
    })
unfolding put evict enqueue
put_runs = refl

get_runs :
    (get empty ≡ waits)
    × (get (close empty) ≡ stop_iteration)
    × (put [] (close empty) ≡ err runtime_error)
unfolding get close put
get_runs = (refl, refl, refl)

filled-IsValid : IsValid filled
unfolding total
filled-IsValid = omega arith

abbrev calls : List Call
calls = produce (1 ∷ 2 ∷ []) ∷ produce (3 ∷ 4 ∷ 5 ∷ []) ∷ consume ∷ shut ∷ produce (6 ∷ []) ∷ []

run-IsAccounted_example : IsAccounted (run (start empty) calls)
run-IsAccounted_example = run-IsAccounted 4 calls new_runs.0
