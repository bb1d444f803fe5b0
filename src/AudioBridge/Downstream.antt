-- ===== src/AudioBridge/Downstream.antt =====
-- bridge.py: the pump from the RTC session to the modem. A 16-bit sample is its bit pattern, below
-- 65536. numpy's `interp` is the parameter `interp`.
use isales_telephony.Base.{
  ℕ, zero, suc, ◌+◌, ◌*◌, ◌/◌, ◌%◌, Bool, false, Option, none, some, List, [], ◌∷◌, ◌++◌, ◌==◌,
  if◌then◌else◌, length, Outcome, ok, err, not, ◌&&◌,
}
use isales_telephony.RingBuffer.{Bytes, Ring, RingError, put}
use isales_telephony.Recorder.{Recorder, append_ai, Sample, frombuffer}
use isales_telephony.AudioBridge.{Stats}

-- `AudioFrame`; the uid 0 is the empty uid
pub record Frame : Type 0 where
  pub sender_uid : ℕ
  pub pcm : Bytes
  pub sample_rate : ℕ
  pub channels : ℕ

unfoldable pub bits : List Sample → List ℕ
bits [] = []
bits ((lo, hi) ∷ samples) = (lo + 256 * hi) ∷ bits samples

-- `tobytes` of int16 samples
unfoldable pub tobytes : List ℕ → Bytes
tobytes [] = []
tobytes (x ∷ xs) = (x % 256) ∷ (x / 256 % 256) ∷ tobytes xs

-- The signed value of a 16-bit pattern, with 32768 added; and back.
abbrev pub biased : ℕ → ℕ
biased x = (x + 32768) % 65536

-- `(l + r) >> 1`, of which the bias is one too
abbrev pub average : ℕ → ℕ → ℕ
average l r = biased ((biased l + biased r) / 2)

-- the mean of left and right; none where the two have not the same length, and numpy raises
unfoldable pub to_mono : List ℕ → Option (List ℕ)
to_mono [] = some []
to_mono (l ∷ []) = none
to_mono (l ∷ r ∷ rest) = prepend (average l r) (to_mono rest)
  where
    prepend : ℕ → Option (List ℕ) → Option (List ℕ)
    prepend x none = none
    prepend x (some xs) = some (x ∷ xs)

-- `xs[skip :: step + 1]`
unfoldable pub stride : ℕ → ℕ → List ℕ → List ℕ
stride step skip [] = []
stride step zero (x ∷ xs) = x ∷ stride step step xs
stride step (suc skip) (x ∷ xs) = stride step skip xs

-- `xs[:: n]`, for a positive n
abbrev pub every : ℕ → List ℕ → List ℕ
every zero xs = []
every (suc step) xs = stride step zero xs

-- `frame.sample_rate or 8000`
abbrev pub or_8000 : ℕ → ℕ
or_8000 rate = if rate == 0 then 8000 else rate

-- from `src_rate` to 8000 samples per second
unfoldable pub decimate : (ℕ → List ℕ → List ℕ) → ℕ → List ℕ → List ℕ
decimate interp src_rate mono =
    if src_rate == 8000
    then mono
    else if src_rate % 8000 == 0
    then every (src_rate / 8000) mono
    else interp src_rate mono

abbrev pub decimated : (ℕ → List ℕ → List ℕ) → ℕ → Option (List ℕ) → Option Bytes
decimated interp src_rate none = none
decimated interp src_rate (some mono) = some (tobytes (decimate interp src_rate mono))

abbrev pub mono_of : ℕ → Option (List Sample) → Option (List ℕ)
mono_of channels none = none
mono_of channels (some samples) =
    if channels == 2 then to_mono (bits samples) else some (bits samples)

-- the bytes for the modem; none where numpy raises
unfoldable pub convert : (ℕ → List ℕ → List ℕ) → Frame → Option Bytes
convert interp f = decimated interp (or_8000 f.sample_rate) (mono_of f.channels (frombuffer f.pcm))

-- The downstream side of a bridge; `played` is the log of what was put into the modem's ring.
pub record Down : Type 0 where
  pub peer_uid : ℕ
  pub modem_downstream : Ring
  pub stats : Stats
  pub recorder : Option (ℕ × Recorder)
  pub running : Bool
  pub played : List Bytes

abbrev pub tap_ai : Bytes → Option (ℕ × Recorder) → Option (ℕ × Recorder)
tap_ai pcm none = none
tap_ai pcm (some (call_id, r)) = some (call_id, append_ai call_id pcm r)

-- a frame of another participant
abbrev pub is_foreign : ℕ → Frame → Bool
is_foreign peer_uid f = not (f.sender_uid == 0) && not (f.sender_uid == peer_uid)

abbrev pub filtered : Down → Down
filtered d = record d {
  stats = record d.stats { downstream_uid_filtered = d.stats.downstream_uid_filtered + 1 };
}

abbrev pub on_put : Bytes → Down → Outcome RingError Ring → Down
on_put pcm d (err e) = record d { running = false }
on_put pcm d (ok ring) = record d {
  modem_downstream = ring;
  stats = record d.stats {
    downstream_chunks = d.stats.downstream_chunks + 1;
    downstream_bytes = d.stats.downstream_bytes + length pcm;
  };
  played = d.played ++ pcm ∷ [];
}

abbrev pub play : Down → Option Bytes → Down
play d none = record d { running = false }
play d (some pcm) = on_put pcm d (put pcm d.modem_downstream)

-- the body of the loop of `_downstream_loop`
unfoldable pub on_frame : (ℕ → List ℕ → List ℕ) → Frame → Down → Down
on_frame interp f d =
    if is_foreign d.peer_uid f
    then filtered d
    else play (record d { recorder = tap_ai f.pcm d.recorder }) (convert interp f)

-- `_downstream_loop` on the frames of the session; it returns where `running` is false
unfoldable pub downstream_loop : (ℕ → List ℕ → List ℕ) → List Frame → Down → Down
downstream_loop interp [] d = d
downstream_loop interp (f ∷ frames) d =
    if d.running then downstream_loop interp frames (on_frame interp f d) else d
