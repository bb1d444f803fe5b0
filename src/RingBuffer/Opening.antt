-- ===== src/RingBuffer/Opening.antt =====
-- What an open buffer of ring_buffer.py does with a chunk.
use isales_telephony.Base.{
  ℕ, ◌+◌, ◌≡◌, refl, ◌∙◌, Bool, true, false, List, [], ◌∷◌, length, ltb, if◌then◌else◌, ok, err,
  Bool-cases, inl, inr, clash,
}
use isales_telephony.RingBuffer.{Bytes, Ring, RingError, runtime_error, evict, enqueue, put}

evict-open : (n : ℕ) (chunks : List Bytes) (r : Ring) → (evict n chunks r).closed ≡ r.closed
unfolding evict
evict-open n [] r = refl
evict-open n (old ∷ rest) r = elim (Bool-cases (ltb r.capacity (r.size + n))) [
  | inl o ↦ rw o (evict-open n rest _)
  | inr o ↦ rw o refl
]

open_of :
    (e : RingError) (is_closed big : Bool) (x y : Ring)
    → is_closed ≡ false
    → x.closed ≡ false
    → y.closed ≡ false
    → (s : Ring) × ((if is_closed then err e else if big then ok x else ok y) ≡ ok s)
      × (s.closed ≡ false)
open_of e true big x y h hx hy = absurd (clash true refl h)
open_of e false true x y h hx hy = (x, refl, hx)
open_of e false false x y h hx hy = (y, refl, hy)

-- an open ring takes every chunk, and stays open
pub put-open :
    (pcm : Bytes) (r : Ring)
    → r.closed ≡ false
    → (s : Ring) × (put pcm r ≡ ok s) × (s.closed ≡ false)
unfolding put enqueue
put-open pcm r h =
    open_of runtime_error r.closed (ltb r.capacity (length pcm)) _ _ h h
      (evict-open (length pcm) r.chunks r ∙ h)
