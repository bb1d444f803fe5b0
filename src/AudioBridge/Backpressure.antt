-- ===== src/AudioBridge/Backpressure.antt =====
-- What backpressure of the RTC session does to a chunk in the upstream pump of bridge.py.
use isales_telephony.Base.{
  ℕ, zero, suc, ◌+◌, ◌≡◌, refl, ap, sym, ◌∙◌, false, Option, some, List, [], ◌∷◌, ◌++◌, replicate,
  arith, subst, if◌then◌else◌,
}
use isales_telephony.RingBuffer.{Bytes, Ring, get, got}
use isales_telephony.AudioBridge.{
  polling, pushing, Upstream, accepted, backpressure, UpInput, resume, answer, is_empty, on_got,
  on_resampled, pushed, on_answer, on_resume, upstream_step, upstream_loop, exit,
}

-- The chunk was pushed, after so many refusals, and the pump reads the modem again.
pub record IsPushed (pcm : Bytes) (refusals : ℕ) (u v : Upstream) : Type 0 where
  pub sent : v.sent ≡ u.sent ++ pcm ∷ []
  pub phase : v.phase ≡ polling
  pub counted :
      v.stats.upstream_backpressure_events ≡ u.stats.upstream_backpressure_events + refusals
  pub chunks : v.stats.upstream_chunks ≡ u.stats.upstream_chunks + 1

abbrev pub answers : ℕ → List UpInput
answers n = replicate n (answer backpressure) ++ answer accepted ∷ []

one_more : (a n : ℕ) → a + 1 + n ≡ a + suc n
one_more a n = omega arith

-- from the first push on
upstream_loop-answers :
    (f : Bytes → Option Bytes) (n : ℕ) (pcm : Bytes) (u : Upstream)
    → u.phase ≡ pushing pcm
    → IsPushed pcm n u (upstream_loop f (answers n) u)
unfolding upstream_loop upstream_step on_answer pushed
upstream_loop-answers f zero pcm u p =
    simp p (record { sent = refl; phase = refl; counted = omega arith; chunks = refl })
upstream_loop-answers f (suc n) pcm u p =
    let h = upstream_loop-answers f n pcm (on_answer backpressure (pushing pcm) u) p in
    subst (λ q. IsPushed pcm (suc n) u (upstream_loop f (answers n) (on_answer backpressure q u)))
      (sym p)
      (record {
        sent = h.sent;
        phase = h.phase;
        counted = h.counted ∙ one_more u.stats.upstream_backpressure_events n;
        chunks = h.chunks;
      })

-- In a pump that reads the modem and is not stopped, a chunk that is there and that the resampler
-- takes is pushed: after any number of refusals by backpressure and one acceptance it is the next
-- chunk that the session has, the refusals are counted, and the pump reads the modem again.
upstream_loop-IsPushed :
    (f : Bytes → Option Bytes) (n : ℕ) (u : Upstream) (chunk pcm : Bytes) (ring : Ring)
    → u.phase ≡ polling
    → u.stop_event ≡ false
    → get u.modem_upstream ≡ got chunk ring
    → is_empty chunk ≡ false
    → f chunk ≡ some pcm
    → IsPushed pcm n u (upstream_loop f (resume ∷ answers n) u)
unfolding upstream_loop upstream_step on_resume
upstream_loop-IsPushed f n u chunk pcm ring p go there full out =
    let v : Upstream = record u {
      modem_upstream = ring;
      phase = pushing pcm;
      taken = u.taken ++ pcm ∷ [];
    } in
    let h = upstream_loop-answers f n pcm v refl in
    let resumed : on_resume f u.phase u ≡ v =
      ap (λ q. on_resume f q u) p
      ∙ ap (λ b. if b then exit u else on_got f u (get u.modem_upstream)) go
      ∙ ap (on_got f u) there
      ∙ ap
          (λ b.
            if b
            then record u { modem_upstream = ring }
            else on_resampled (record u { modem_upstream = ring }) (f chunk))
          full
      ∙ ap (on_resampled (record u { modem_upstream = ring })) out in
    subst (λ w. IsPushed pcm n u (upstream_loop f (answers n) w)) (sym resumed)
      (record { sent = h.sent; phase = h.phase; counted = h.counted; chunks = h.chunks })
