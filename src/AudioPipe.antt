-- ===== src/AudioPipe.antt =====
-- isales_telephony/modem_controller/audio_pipe.py: the jitter buffer and the pipe around it.
-- Resampling is scipy's: `downsample` is an argument.
pub mod Jitter
pub mod Splitting
mod Feeding
mod Samples
use isales_telephony.Base.{
  ℕ, zero, suc, ◌+◌, ◌-◌, ◌*◌, Bool, List, [], ◌∷◌, ◌++◌, ◌==◌, if◌then◌else◌, length, take, drop,
  replicate,
}
use isales_telephony.RingBuffer.{Bytes}

-- 50 ms of 8 kHz samples, two bytes each
unfoldable pub gsm_chunk_bytes : ℕ
gsm_chunk_bytes = 800

-- `JitterBuffer`
pub record JitterBuffer : Type 0 where
  pub max_chunks : ℕ
  pub buf : List Bytes
  pub underruns : ℕ
  pub overruns : ℕ

unfoldable pub new : ℕ → JitterBuffer
new max_chunks = record { max_chunks = max_chunks; buf = []; underruns = 0; overruns = 0 }

-- `deque.append` on a deque with a `maxlen`
unfoldable pub deque_append : ℕ → Bytes → List Bytes → List Bytes
deque_append maxlen chunk buf = drop (length buf + 1 - maxlen) (buf ++ chunk ∷ [])

-- `push`
unfoldable pub push : Bytes → JitterBuffer → JitterBuffer
push chunk b =
    let counted : ℕ = if length b.buf == b.max_chunks then b.overruns + 1 else b.overruns in
    record b { buf = deque_append b.max_chunks chunk b.buf; overruns = counted }

unfoldable pub silence_chunk : Bytes
silence_chunk = replicate gsm_chunk_bytes 0

abbrev pub pop_of : JitterBuffer → List Bytes → Bytes × JitterBuffer
pop_of b [] = (silence_chunk, record b { underruns = b.underruns + 1 })
pop_of b (chunk ∷ rest) = (chunk, record b { buf = rest })

-- `pop`
unfoldable pub pop : JitterBuffer → Bytes × JitterBuffer
pop b = pop_of b b.buf

-- the slices of `feed_outbound`; the fuel is the number of bytes
unfoldable pub slices : ℕ → Bytes → List Bytes
slices zero pcm = []
slices (suc fuel) [] = []
slices (suc fuel) (x ∷ pcm) =
    take gsm_chunk_bytes (x ∷ pcm) ∷ slices fuel (drop gsm_chunk_bytes (x ∷ pcm))

unfoldable pub push_all : List Bytes → JitterBuffer → JitterBuffer
push_all [] b = b
push_all (chunk ∷ chunks) b = push_all chunks (push chunk b)

-- `feed_outbound`
unfoldable pub feed_outbound : (Bytes → Bytes) → Bytes → JitterBuffer → JitterBuffer
feed_outbound downsample pcm_16k b =
    let pcm_8k = downsample pcm_16k in push_all (slices (length pcm_8k) pcm_8k) b
