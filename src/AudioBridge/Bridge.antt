-- ===== src/AudioBridge/Bridge.antt =====
-- `join` and `leave` of audio_bridge/bridge.py, over any RTC session. The session's base class is not
-- part of the repository: an interface says what the bridge relies on.
use isales_telephony.Base.{
  ℕ, ◌+◌, ◌≡◌, refl, sym, ap, ◌∙◌, Bool, true, false, Option, none, some, List, [], ◌∷◌, ◌&&◌,
  if◌then◌else◌, if-cases, arith,
}

-- Sessions `S` that join with `A` or raise an `E`, and that move by `I` in their pumps' hands: a
-- session joins once only, and stays as it was where `join` raises; and it is left by `leave`.
pub record RtcSessions (A I S E : Type 0) : Type 0 where
  pub rtc_join : A → S → S × Option E
  pub rtc_leave : S → S
  pub rtc_move : I → S → S
  pub is_joined : S → Bool
  pub joins :
      (a : A) (s : S)
      → (rtc_join a s).1 ≡ none
      → (is_joined s ≡ false) × (is_joined (rtc_join a s).0 ≡ true)
  pub refuses :
      (a : A) (s : S) (e : E) → (rtc_join a s).1 ≡ some e → is_joined (rtc_join a s).0 ≡ is_joined s
  pub leaves : (s : S) → is_joined (rtc_leave s) ≡ false
  pub moves : (i : I) (s : S) → is_joined (rtc_move i s) ≡ is_joined s

pub data Task : Type 0 where
  no_task running returned : Task

abbrev pub has_task : Task → Bool
has_task no_task = false
has_task running = true
has_task returned = true

abbrev pub runs : Task → ℕ
runs running = 1
runs _ = 0

-- `_upstream_task`, `_downstream_task` and `_stop_event`; `orphans` counts the tasks that ran on when
-- the bridge forgot them.
pub record Bridge (S : Type 0) : Type 0 where
  pub rtc : S
  pub upstream_task : Task
  pub downstream_task : Task
  pub stop_event : Bool
  pub orphans : ℕ

-- `__init__`, for a `peer_uid` that is not empty
unfoldable pub new_bridge : {S : Type 0} → S → Bridge S
new_bridge s = record {
  rtc = s;
  upstream_task = no_task;
  downstream_task = no_task;
  stop_event = false;
  orphans = 0;
}

abbrev pub task_returned : Task → Task
task_returned running = returned
task_returned t = t

pub data BridgeInput (A I : Type 0) : Type 0 where
  join : A → BridgeInput A I
  leave : BridgeInput A I
  move : I → BridgeInput A I
  upstream_returns downstream_returns : BridgeInput A I

module _ {A I S E : Type 0} (R : RtcSessions A I S E) where
  -- the tasks start behind a join that does not raise
  abbrev pub after_join : Bridge S → S × Option E → Bridge S × Option E
  after_join b (s, some e) = (record b { rtc = s }, some e)
  after_join b (s, none) = (
    record {
      rtc = s;
      upstream_task = running;
      downstream_task = running;
      stop_event = false;
      orphans = b.orphans + runs b.upstream_task + runs b.downstream_task;
    },
    none,
  )

  -- `join`
  unfoldable pub join_bridge : A → Bridge S → Bridge S × Option E
  join_bridge a b = after_join b (R.rtc_join a b.rtc)

  -- `leave`: a task that runs is cancelled and awaited; what the session raises is suppressed
  unfoldable pub leave_bridge : Bridge S → Bridge S
  leave_bridge b = record {
    rtc = if R.is_joined b.rtc then R.rtc_leave b.rtc else b.rtc;
    upstream_task = no_task;
    downstream_task = no_task;
    stop_event = true;
    orphans = b.orphans;
  }

  unfoldable pub is_active : Bridge S → Bool
  is_active b = R.is_joined b.rtc && has_task b.upstream_task

  unfoldable pub bridge_step : Bridge S → BridgeInput A I → Bridge S
  bridge_step b (join a) = (join_bridge a b).0
  bridge_step b leave = leave_bridge b
  bridge_step b (move i) = record b { rtc = R.rtc_move i b.rtc }
  bridge_step b upstream_returns = record b { upstream_task = task_returned b.upstream_task }
  bridge_step b downstream_returns = record b { downstream_task = task_returned b.downstream_task }

  unfoldable pub bridge_run : Bridge S → List (BridgeInput A I) → Bridge S
  bridge_run b [] = b
  bridge_run b (i ∷ is) = bridge_run (bridge_step b i) is

  -- The bridge has its two tasks just while the session is joined, and has forgotten none that ran.
  pub record IsPaired (b : Bridge S) : Type 0 where
    pub upstream : has_task b.upstream_task ≡ R.is_joined b.rtc
    pub downstream : has_task b.downstream_task ≡ R.is_joined b.rtc
    pub no_orphan : b.orphans ≡ 0

  joined-IsPaired :
      (b : Bridge S) (a : A) (r : S × Option E)
      → R.rtc_join a b.rtc ≡ r
      → IsPaired b
      → IsPaired (after_join b r).0
  joined-IsPaired b a (s, some e) q h =
      let same : R.is_joined s ≡ R.is_joined b.rtc =
        ap (λ (r : S × Option E). R.is_joined (r.0)) (sym q)
        ∙ R.refuses a b.rtc e (ap (λ (r : S × Option E). r.1) q) in
      record {
        upstream = h.upstream ∙ sym same;
        downstream = h.downstream ∙ sym same;
        no_orphan = h.no_orphan;
      }
  joined-IsPaired b a (s, none) q h =
      let j = R.joins a b.rtc (ap (λ (r : S × Option E). r.1) q) in
      let now : true ≡ R.is_joined s = sym (j.1) ∙ ap (λ (r : S × Option E). R.is_joined (r.0)) q in
      record {
        upstream = now;
        downstream = now;
        no_orphan = omega (
          arith,
          h.no_orphan,
          idle b.upstream_task (h.upstream ∙ j.0),
          idle b.downstream_task (h.downstream ∙ j.0),
        );
      }
    where
      idle : (t : Task) → has_task t ≡ false → runs t ≡ 0
      idle no_task e = refl
      idle running e = ground arith
      idle returned e = refl

  leave-IsPaired : (b : Bridge S) → IsPaired b → IsPaired (leave_bridge b)
  unfolding leave_bridge
  leave-IsPaired b h =
      let out : false ≡ R.is_joined (if R.is_joined b.rtc then R.rtc_leave b.rtc else b.rtc) =
        if-cases (λ s. false ≡ R.is_joined s) (R.is_joined b.rtc) (λ _. sym (R.leaves b.rtc))
          (λ o. sym o) in
      record { upstream = out; downstream = out; no_orphan = h.no_orphan }

  returned_has : (t : Task) → has_task (task_returned t) ≡ has_task t
  returned_has no_task = refl
  returned_has running = refl
  returned_has returned = refl

  step-IsPaired : (b : Bridge S) (i : BridgeInput A I) → IsPaired b → IsPaired (bridge_step b i)
  unfolding bridge_step join_bridge
  step-IsPaired b (join a) h = joined-IsPaired b a (R.rtc_join a b.rtc) refl h
  step-IsPaired b leave h = leave-IsPaired b h
  step-IsPaired b (move i) h = record {
    upstream = h.upstream ∙ sym (R.moves i b.rtc);
    downstream = h.downstream ∙ sym (R.moves i b.rtc);
    no_orphan = h.no_orphan;
  }
  step-IsPaired b upstream_returns h = record {
    upstream = returned_has b.upstream_task ∙ h.upstream;
    downstream = h.downstream;
    no_orphan = h.no_orphan;
  }
  step-IsPaired b downstream_returns h = record {
    upstream = h.upstream;
    downstream = returned_has b.downstream_task ∙ h.downstream;
    no_orphan = h.no_orphan;
  }

  pub run-IsPaired :
      (b : Bridge S) (is : List (BridgeInput A I)) → IsPaired b → IsPaired (bridge_run b is)
  unfolding bridge_run
  run-IsPaired b [] h = h
  run-IsPaired b (i ∷ is) h = run-IsPaired (bridge_step b i) is (step-IsPaired b i h)
