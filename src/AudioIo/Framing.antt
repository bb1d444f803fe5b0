-- ===== src/AudioIo/Framing.antt =====
-- The frames that the pumps of audio_io.py write to the modem.
use isales_telephony.Base.{
  join-append, All-snoc, ℕ, zero, suc, ◌+◌, ◌-◌, ◌≤◌, ◌<◌, ◌≡◌, refl, sym, ap, ◌∙◌, List, [], ◌∷◌,
  ◌++◌, leb, arith, length, take, drop, join, All, ◌⊎◌, inl, inr, Bool-cases, leb→le, length-take,
  length-drop, take-append-drop, append_assoc, append-nil, length-replicate, subst,
}
use isales_telephony.RingBuffer.{Bytes, Ring, get_nowait, pop}
use isales_telephony.AudioIo.{
  frame_size, write_frames, play_chunk, run_playback_pump, Duplex, silence, drain_ready, next_frame,
  duplex_write, drained,
}

abbrev IsFrame : Bytes → Type 0
IsFrame f = length f ≡ 320

-- What has been written are whole frames; with what is accumulated, less than a frame, they are the
-- bytes that came in.
pub record IsFramed (input : Bytes) (s : Bytes × List Bytes) : Type 0 where
  pub bytes_kept : join s.1 ++ s.0 ≡ input
  pub whole : All IsFrame s.1
  pub short : length s.0 < 320

one_more :
    (accum : Bytes) (written : List Bytes)
    → join (written ++ take 320 accum ∷ []) ++ drop 320 accum ≡ join written ++ accum
one_more accum written =
    ap (λ l. l ++ drop 320 accum)
      (join-append written (take 320 accum ∷ []) ∙ ap (λ l. join written ++ l) (append-nil _))
    ∙ append_assoc (join written) _ _
    ∙ ap (λ l. join written ++ l) (take-append-drop 320 accum)

write_frames-IsFramed :
    (fuel : ℕ) (accum : Bytes) (written : List Bytes)
    → length accum ≤ fuel
    → All IsFrame written
    → IsFramed (join written ++ accum) (write_frames fuel accum written)
unfolding write_frames frame_size
write_frames-IsFramed zero accum written le h = record {
  bytes_kept = refl;
  whole = h;
  short = omega arith;
}
write_frames-IsFramed (suc fuel) accum written le h = elim (Bool-cases (leb 320 (length accum))) [
  | inr o ↦ rw o (record { bytes_kept = refl; whole = h; short = ground arith })
  | inl o ↦
      let enough = leb→le 320 (length accum) o in
      let frame : IsFrame (take 320 accum) = omega (arith, length-take 320 accum) in
      rw (o, ← one_more accum written)
        (write_frames-IsFramed fuel (drop 320 accum) (written ++ take 320 accum ∷ [])
          (omega (arith, length-drop 320 accum))
          (All-snoc IsFrame written (take 320 accum) h frame))
]

play_chunk-IsFramed :
    (chunk : Bytes) (input : Bytes) (s : Bytes × List Bytes)
    → IsFramed input s
    → IsFramed (input ++ chunk) (play_chunk chunk s)
unfolding play_chunk
play_chunk-IsFramed [] input s h = rw append-nil h
play_chunk-IsFramed (b ∷ chunk) input (accum, written) h =
    rw (← h.bytes_kept, append_assoc)
      (write_frames-IsFramed (length (accum ++ b ∷ chunk)) (accum ++ b ∷ chunk) written
        (omega arith) h.whole)

-- Whatever the ring delivers, once the pump has seen it: playback has been given whole frames of
-- 320 bytes only, these are the bytes delivered, in order and once, and what is still held back is
-- less than a frame.
pub run_playback_pump-IsFramed :
    (chunks : List Bytes) (input : Bytes) (s : Bytes × List Bytes)
    → IsFramed input s
    → IsFramed (input ++ join chunks) (run_playback_pump chunks s)
unfolding run_playback_pump
run_playback_pump-IsFramed [] input s h = rw append-nil h
run_playback_pump-IsFramed (chunk ∷ chunks) input s h = rw (← append_assoc) (
    run_playback_pump-IsFramed chunks (input ++ chunk) (play_chunk chunk s)
      (play_chunk-IsFramed chunk input s h))

-- What the inner loop of the duplex pump leaves: nothing in the ring, all of it pending.
IsDrained : Bytes → List Bytes → Ring × Bytes → Type 0
IsDrained pending cs r = (r.1 ≡ pending ++ join cs) × (r.0.chunks ≡ [])

drain_ready-IsDrained :
    (fuel : ℕ) (cs : List Bytes) (ring : Ring) (pending : Bytes)
    → ring.chunks ≡ cs
    → length cs < fuel
    → IsDrained pending cs (drain_ready fuel ring pending)
unfolding drain_ready get_nowait pop IsDrained
drain_ready-IsDrained zero cs ring pending e lt = absurd (omega arith)
drain_ready-IsDrained (suc fuel) [] ring pending e lt =
    subst (λ t. IsDrained pending [] (drained (drain_ready fuel) ring pending (pop t ring))) (sym e)
      (sym (append-nil pending), e)
drain_ready-IsDrained (suc fuel) (c ∷ cs) ring pending e lt =
    let rest : Ring = record ring { chunks = cs; size = ring.size - length c } in
    let ih = drain_ready-IsDrained fuel cs rest (pending ++ c) refl (omega arith) in
    subst (λ t. IsDrained pending (c ∷ cs) (drained (drain_ready fuel) ring pending (pop t ring)))
      (sym e) (ih.0 ∙ append_assoc pending c (join cs), ih.1)

-- One turn of the duplex pump, with `ready` the bytes pending and queued: it empties the downstream
-- ring and writes one frame, the first of `ready` or, if there is less than one, silence, and it
-- keeps the rest of `ready`.
pub record IsTurn (ready : Bytes) (s d : Duplex) : Type 0 where
  pub frame : Bytes
  pub one_frame : d.written ≡ s.written ++ frame ∷ []
  pub whole : length frame ≡ 320
  pub emptied : d.downstream.chunks ≡ []
  pub kept :
      (frame ++ d.pending ≡ ready)
      ⊎ ((length ready < 320) × (frame ≡ silence) × (d.pending ≡ ready))

-- In the duplex pump each read is followed by one write of 320 bytes: the next of the downstream
-- audio, in order and with no byte lost, or silence where less than a frame is ready.
duplex_write-IsTurn :
    (upstream : Ring) (s : Duplex)
    → IsTurn (s.pending ++ join s.downstream.chunks) s (duplex_write upstream s)
unfolding duplex_write next_frame frame_size silence IsDrained
duplex_write-IsTurn upstream s =
    let cs = s.downstream.chunks in
    let r = drain_ready-IsDrained (length cs + 1) cs s.downstream s.pending refl (omega arith) in
    let ready = s.pending ++ join cs in
    elim (Bool-cases (leb 320 (length ready))) [
      | inl o ↦ record {
        frame = take 320 ready;
        one_frame = rw (r.0, o) refl;
        whole = omega (arith, length-take 320 ready, leb→le 320 (length ready) o);
        emptied = r.1;
        kept = rw (r.0, o) (inl (take-append-drop 320 ready));
      }
      | inr o ↦ record {
        frame = silence;
        one_frame = rw (r.0, o) refl;
        whole = length-replicate {A = ℕ} 320 0;
        emptied = r.1;
        kept = rw (r.0, o) (inr (ground arith, refl, refl));
      }
    ]
