-- ===== src/Recorder/Samples.antt =====
-- Recordings of small calls.
use isales_telephony.Base.{◌≡◌, refl, false, none, some, List, [], ◌∷◌, ok, err}
use isales_telephony.RingBuffer.{Bytes}
use isales_telephony.Recorder.{
  Recorder, Sample, Wav, disk_full, begin_call, finalize, find, remove, frombuffer, pad, interleave,
  write_stereo_wav, newest_first, place, prune,
}
use isales_telephony.Recorder.Stereo.{IsStereo, write_stereo_wav-IsStereo}
use isales_telephony.Recorder.Tracks.{
  Append, user, ai, append_all, user_of, ai_of, finalize_recorded,
}

abbrev lefts : List Bytes
lefts = (1 ∷ 2 ∷ 3 ∷ 4 ∷ []) ∷ []

abbrev rights : List Bytes
rights = (5 ∷ []) ∷ (6 ∷ []) ∷ []

abbrev frames : List (Sample × Sample)
frames = ((1, 2), (5, 6)) ∷ ((3, 4), (0, 0)) ∷ []

stereo_runs : write_stereo_wav lefts rights ≡ ok frames
unfolding write_stereo_wav frombuffer pad interleave
stereo_runs = refl

write_stereo_wav-IsStereo_example :
    (fs : List (Sample × Sample)) × (write_stereo_wav lefts rights ≡ ok fs)
    × IsStereo (1 ∷ 2 ∷ 3 ∷ 4 ∷ []) (5 ∷ 6 ∷ []) fs
write_stereo_wav-IsStereo_example = write_stereo_wav-IsStereo lefts rights refl refl

abbrev empty : Recorder
empty = record { min_free_bytes = 10; tracks = [] }

abbrev begun : Recorder
begun = record empty { tracks = (7, record { user_chunks = []; ai_chunks = [] }) ∷ [] }

begin_runs : (begin_call 10 7 empty ≡ ok begun) × (begin_call 9 7 empty ≡ err disk_full)
unfolding begin_call remove
begin_runs = (refl, refl)

abbrev chunks : List Append
chunks = user 7 (1 ∷ 2 ∷ []) ∷ ai 8 (9 ∷ 9 ∷ []) ∷ ai 7 (5 ∷ 6 ∷ []) ∷ user 7 (3 ∷ 4 ∷ []) ∷ []

finalize_recorded_example :
    ((finalize 7 (append_all chunks begun)).0
      ≡ some (write_stereo_wav (user_of 7 chunks) (ai_of 7 chunks)))
    × (find 7 (finalize 7 (append_all chunks begun)).1.tracks ≡ none)
finalize_recorded_example = finalize_recorded 10 7 chunks empty begin_runs.0

abbrev files : List Wav
files =
    record { name = 1; mtime = 5 }
    ∷ record { name = 2; mtime = 9 }
    ∷ record { name = 3; mtime = 7 }
    ∷ []

prune_runs :
    prune (λ _. false) 2 files
    ≡ record { name = 2; mtime = 9 } ∷ record { name = 3; mtime = 7 } ∷ []
unfolding prune newest_first place
prune_runs = refl
