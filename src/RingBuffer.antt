-- ===== src/RingBuffer.antt =====
-- isales_telephony/audio_bridge/ring_buffer.py: the bounded PCM buffer between modem and bridge.
-- A chunk is the list of its bytes. The methods run on one event loop and touch the buffer only
-- between two awaits, so each is one step; `get` on an open empty buffer is the outcome `waits`.
pub mod Invariant
pub mod Eviction
pub mod Opening
pub mod Traces
mod Samples
use isales_telephony.Base.{
  ℕ, ◌+◌, ◌-◌, Bool, true, false, Option, none, some, List, [], ◌∷◌, ◌++◌, Outcome, ok, err, ltb,
  ◌==◌, length, if◌then◌else◌,
}

abbrev pub Bytes : Type 0
Bytes = List ℕ

pub data RingError : Type 0 where
  value_error runtime_error : RingError

pub record Ring : Type 0 where
  pub capacity : ℕ
  pub chunks : List Bytes
  pub size : ℕ
  pub closed : Bool
  pub dropped_chunks : ℕ
  pub dropped_bytes : ℕ

-- `__init__`: a capacity of 0 (or less) is refused
unfoldable pub new : ℕ → Outcome RingError Ring
new capacity =
    if capacity == 0
    then err value_error
    else ok (record {
      capacity = capacity;
      chunks = [];
      size = 0;
      closed = false;
      dropped_chunks = 0;
      dropped_bytes = 0;
    })

-- the `while` loop of `put`: the oldest chunks go until a chunk of `n` bytes fits
unfoldable pub evict : ℕ → List Bytes → Ring → Ring
evict n [] r = record r { chunks = [] }
evict n (old ∷ rest) r =
    let next = evict n rest (record r {
      size = r.size - length old;
      dropped_chunks = r.dropped_chunks + 1;
      dropped_bytes = r.dropped_bytes + length old;
    }) in
    if ltb r.capacity (r.size + n) then next else record r { chunks = old ∷ rest }

-- `append` and the new size, once the chunk fits
unfoldable pub enqueue : Bytes → Ring → Ring
enqueue chunk r = record r { chunks = r.chunks ++ chunk ∷ []; size = r.size + length chunk }

-- a chunk larger than the whole buffer is counted as dropped, and the buffer stays
unfoldable pub put : Bytes → Ring → Outcome RingError Ring
put chunk r =
    if r.closed
    then err runtime_error
    else if ltb r.capacity (length chunk)
    then ok (record r {
      dropped_chunks = r.dropped_chunks + 1;
      dropped_bytes = r.dropped_bytes + length chunk;
    })
    else ok (enqueue chunk (evict (length chunk) r.chunks r))

-- `popleft` and the new size
unfoldable pub pop : List Bytes → Ring → Option (Bytes × Ring)
pop [] r = none
pop (chunk ∷ rest) r = some (chunk, record r { chunks = rest; size = r.size - length chunk })

unfoldable pub get_nowait : Ring → Option (Bytes × Ring)
unfolding pop
get_nowait r = pop r.chunks r

-- `get` returns a chunk, raises StopAsyncIteration, or goes on waiting
pub data Got : Type 0 where
  got : Bytes → Ring → Got
  stop_iteration : Got
  waits : Got

abbrev or_wait : Bool → Option (Bytes × Ring) → Got
or_wait closed (some (chunk, r)) = got chunk r
or_wait closed none = if closed then stop_iteration else waits

unfoldable pub get : Ring → Got
unfolding get_nowait
get r = or_wait r.closed (get_nowait r)

-- `__len__`
abbrev pub len : Ring → ℕ
len r = r.size

unfoldable pub close : Ring → Ring
close r = record r { closed = true }
