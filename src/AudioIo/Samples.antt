-- ===== src/AudioIo/Samples.antt =====
-- The pumps on small inputs.
use isales_telephony.Base.{◌≡◌, refl, List, [], ◌∷◌, false, true, arith, replicate, join}
use isales_telephony.RingBuffer.{Bytes, Ring, runtime_error, put}
use isales_telephony.AudioIo.{run_playback_pump, run_capture_pump, raised, eof}
use isales_telephony.AudioIo.Framing.{IsFramed, run_playback_pump-IsFramed}

abbrev long_chunk : Bytes
long_chunk = replicate 400 7

abbrev nothing : Bytes × List Bytes
nothing = ([], [])

nothing-IsFramed : IsFramed [] nothing
nothing-IsFramed = record { bytes_kept = refl; whole = tt; short = omega arith }

run_playback_pump-IsFramed_example :
    IsFramed
      (join (long_chunk ∷ [] ∷ long_chunk ∷ []))
      (run_playback_pump (long_chunk ∷ [] ∷ long_chunk ∷ []) nothing)
run_playback_pump-IsFramed_example =
    run_playback_pump-IsFramed (long_chunk ∷ [] ∷ long_chunk ∷ []) [] nothing nothing-IsFramed

abbrev closed : Ring
closed = record {
  capacity = 4;
  chunks = [];
  size = 0;
  closed = true;
  dropped_chunks = 0;
  dropped_bytes = 0;
}

capture_runs :
    (run_capture_pump ((1 ∷ []) ∷ []) closed ≡ (closed, raised runtime_error))
    × (run_capture_pump ([] ∷ (1 ∷ []) ∷ []) closed ≡ (closed, eof))
unfolding run_capture_pump put
capture_runs = (refl, refl)

abbrev talking : Ring
talking = record closed { capacity = 1000; chunks = long_chunk ∷ []; size = 400; closed = false }
