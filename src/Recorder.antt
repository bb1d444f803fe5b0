-- ===== src/Recorder.antt =====
-- isales_telephony/modem_controller/recorder.py: `Recorder`, the recordings of the calls.
-- A wav file is its frames, a pair of 16-bit samples each, of which a sample is its two bytes; the
-- directory is a list of files with their mtimes. The free space is the argument.
pub mod Stereo
pub mod Tracks
pub mod Retention
mod Samples
use isales_telephony.Base.{
  ℕ, zero, suc, ◌+◌, ◌-◌, ◌*◌, Bool, true, false, Option, none, some, List, [], ◌∷◌, ◌++◌, ltb, leb,
  ◌==◌, if◌then◌else◌, Outcome, ok, err, length, take, drop, replicate, join, keep,
}
use isales_telephony.RingBuffer.{Bytes}

-- `_CallTracks`
pub record CallTracks : Type 0 where
  pub user_chunks : List Bytes
  pub ai_chunks : List Bytes

-- `Recorder`
pub record Recorder : Type 0 where
  pub min_free_bytes : ℕ
  pub tracks : List (ℕ × CallTracks)

pub data RecordError : Type 0 where
  disk_full value_error : RecordError

unfoldable pub find : ℕ → List (ℕ × CallTracks) → Option CallTracks
find id [] = none
find id ((j, t) ∷ rest) = if j == id then some t else find id rest

-- `self._tracks.pop(call_id, None)`, what stays
unfoldable pub remove : ℕ → List (ℕ × CallTracks) → List (ℕ × CallTracks)
remove id [] = []
remove id ((j, t) ∷ rest) = let left = remove id rest in if j == id then left else (j, t) ∷ left

-- `self._tracks[call_id] = track`; the order of the entries is not looked at
abbrev pub assign : ℕ → CallTracks → Recorder → Recorder
assign id t r = record r { tracks = (id, t) ∷ remove id r.tracks }

-- `begin_call`
unfoldable pub begin_call : ℕ → ℕ → Recorder → Outcome RecordError Recorder
begin_call free id r =
    if ltb free r.min_free_bytes
    then err disk_full
    else ok (assign id (record { user_chunks = []; ai_chunks = [] }) r)

abbrev pub with_track : (CallTracks → CallTracks) → ℕ → Recorder → Option CallTracks → Recorder
with_track f id r none = r
with_track f id r (some t) = assign id (f t) r

-- `append_user`
unfoldable pub append_user : ℕ → Bytes → Recorder → Recorder
append_user id pcm r =
    with_track (λ (t : CallTracks). record t { user_chunks = t.user_chunks ++ pcm ∷ [] }) id r
      (find id r.tracks)

-- `append_ai`
unfoldable pub append_ai : ℕ → Bytes → Recorder → Recorder
append_ai id pcm r =
    with_track (λ (t : CallTracks). record t { ai_chunks = t.ai_chunks ++ pcm ∷ [] }) id r
      (find id r.tracks)

abbrev pub Sample : Type 0
Sample = ℕ × ℕ

abbrev pub cons_sample : Sample → Option (List Sample) → Option (List Sample)
cons_sample s none = none
cons_sample s (some rest) = some (s ∷ rest)

-- `np.frombuffer(data, dtype="<i2")`: it raises on an odd number of bytes
unfoldable pub frombuffer : Bytes → Option (List Sample)
frombuffer [] = some []
frombuffer (lo ∷ []) = none
frombuffer (lo ∷ hi ∷ rest) = cons_sample (lo, hi) (frombuffer rest)

-- silence behind the shorter track
unfoldable pub pad : Bytes → Bytes → Bytes
pad track other = track ++ replicate (length other - length track) 0

unfoldable pub interleave : List Sample → List Sample → List (Sample × Sample)
interleave [] rs = []
interleave (l ∷ ls) [] = []
interleave (l ∷ ls) (r ∷ rs) = (l, r) ∷ interleave ls rs

abbrev pub both :
    Option (List Sample) → Option (List Sample) → Outcome RecordError (List (Sample × Sample))
both none r = err value_error
both (some l) none = err value_error
both (some l) (some r) = ok (interleave l r)

-- `_write_stereo_wav`, the frames of the file
unfoldable pub write_stereo_wav :
    List Bytes → List Bytes → Outcome RecordError (List (Sample × Sample))
write_stereo_wav left_chunks right_chunks =
    let left = join left_chunks in
    let right = join right_chunks in
    both (frombuffer (pad left right)) (frombuffer (pad right left))

-- What `finalize` gives: the file's frames, `none` for an unknown call, or an exception; the track
-- is gone in each case.
abbrev finalized : Option CallTracks → Option (Outcome RecordError (List (Sample × Sample)))
finalized none = none
finalized (some t) = some (write_stereo_wav t.user_chunks t.ai_chunks)

-- `finalize`
unfoldable pub finalize :
    ℕ → Recorder → Option (Outcome RecordError (List (Sample × Sample))) × Recorder
finalize id r = (finalized (find id r.tracks), record r { tracks = remove id r.tracks })

-- A wav file of the directory.
pub record Wav : Type 0 where
  pub name : ℕ
  pub mtime : ℕ

-- one step of `sorted(..., reverse=True)`, which keeps files of one mtime in their order
unfoldable pub place : Wav → List Wav → List Wav
place w [] = w ∷ []
place w (v ∷ vs) = let later = place w vs in if leb v.mtime w.mtime then w ∷ v ∷ vs else v ∷ later

unfoldable pub newest_first : List Wav → List Wav
newest_first [] = []
newest_first (w ∷ ws) = place w (newest_first ws)

-- `prune`: what the directory holds then; `stuck` tells the files whose unlink raises
unfoldable pub prune : (Wav → Bool) → ℕ → List Wav → List Wav
prune stuck zero wavs = wavs
prune stuck (suc kept) wavs =
    let sorted = newest_first wavs in take (suc kept) sorted ++ keep stuck (drop (suc kept) sorted)
