-- ===== src/Orchestrator/Samples.antt =====
-- Runs of the orchestrator on small inputs.
use isales_telephony.Base.{
  err, codes, ◌≡◌, ◌≢◌, refl, sym, true, false, Option, none, some, List, [], ◌∷◌, length, All,
}
use isales_telephony.Orchestrator.{
  Ctx, Env, unspecified, to_proto, unlisted, raised, pcm_enabled, pcm_enable_error, add_tasks,
  handle_connected, join_bridge, build_audio, start_recording, handle_remote_hangup, teardown,
  stop_tasks, leave_bridge, finish_recording, leave_rtc, disable_pcm, drop_rings,
}
use isales_telephony.Orchestrator.Calls.{
  Input, dial, cancel, at_event, connected, remote_hangup, stream_end, shut_down, run, new, step,
  new_ctx, modem_call, on_dial, dial_new, lookup, pump_step, get, on_event, modify, pop,
  pump_finally, on_cancel, stop, for_calls,
}
use isales_telephony.Orchestrator.Protocol.{Held, held_of, replay, held_step, hangups}
use isales_telephony.Orchestrator.Soundness.{IsSettled, clash}
use isales_telephony.Orchestrator.Sound.{IsSound}
use isales_telephony.Orchestrator.Runs.{run-AllSound}
use isales_telephony.Orchestrator.Ownership.{IsOwned}
use isales_telephony.Orchestrator.Owning.{run-IsOwned}
use isales_telephony.Orchestrator.Shutdown.{stop-Stopped, Stopped}
use isales_telephony.AtClient.{mapped}
use isales_telephony.Drivers.{
  dial as modem_dial, classify_dial_failure, first_cause, call_rejected, temporary_failure,
}
use isales_telephony.Orchestrator.Causes.{cause_text, dial_answer, end_cause, end_cause-Told}
use isales_telephony.Orchestrator.Silence.{at_hangups}
use isales_telephony.Orchestrator.Failures.{failed_join, failed_pcm}

abbrev good : Env
good = record {
  dialled = some 1;
  pcm = pcm_enabled;
  disk_free = true;
  bridge_built = true;
  joined = true;
  stream_up = true;
  windows = true;
  no_mic = false;
}

abbrev no_join : Env
no_join = record good { joined = false }

abbrev no_pcm : Env
no_pcm = record good { pcm = pcm_enable_error; stream_up = false }

abbrev inputs : List Input
inputs =
    dial good 7
    ∷ at_event (connected good) 0
    ∷ dial good 7
    ∷ cancel 7
    ∷ at_event (remote_hangup "user_hangup") 0
    ∷ dial good 8
    ∷ at_event (connected no_join) 1
    ∷ at_event stream_end 1
    ∷ shut_down
    ∷ []

run-AllSound_example : All IsSound (run (new false (some 5)) inputs).store
run-AllSound_example = run-AllSound false (some 5) inputs

dialled_calls : length (run (new false (some 5)) inputs).store ≡ 2
unfolding run step new on_dial dial_new lookup pump_step get on_event modify pop pump_finally
    on_cancel stop for_calls modem_call new_ctx handle_connected build_audio join_bridge
    start_recording handle_remote_hangup teardown drop_rings disable_pcm leave_rtc finish_recording
    leave_bridge stop_tasks
dialled_calls = refl

-- a modem call whose AT stream says that it is connected
abbrev ringing : Ctx
ringing = record (modem_call 7 1) { connected_seen = true }

ringing-IsSettled : IsSettled true ringing
unfolding modem_call add_tasks new_ctx replay held_step hangups
ringing-IsSettled = record {
  replayed = refl;
  once = refl;
  modem = λ q. clash (sym q);
  freed = λ q. clash (sym q);
  seen_so = refl;
}

failed_join_example :
    ((handle_connected (some 5) no_join ringing).1 ≡ unlisted)
    × ((handle_connected (some 5) no_join ringing).0.terminated ≡ true)
    × (hangups (handle_connected (some 5) no_join ringing).0.log ≡ 1)
    × (at_hangups (handle_connected (some 5) no_join ringing).0.log ≡ at_hangups ringing.log)
unfolding modem_call add_tasks new_ctx
failed_join_example =
    failed_join (some 5) no_join ringing ringing-IsSettled refl refl refl refl refl refl

failed_pcm_example :
    ((handle_connected (some 5) no_pcm ringing).1 ≡ raised)
    × ((handle_connected (some 5) no_pcm ringing).0.terminated ≡ false)
    × (hangups (handle_connected (some 5) no_pcm ringing).0.log ≡ 0)
    × (at_hangups (handle_connected (some 5) no_pcm ringing).0.log ≡ 0)
unfolding modem_call add_tasks new_ctx at_hangups
failed_pcm_example = failed_pcm (some 5) no_pcm ringing ringing-IsSettled refl refl refl refl

-- two calls, of which the first one's id is dialled twice while it is listed
run-IsOwned_example : IsOwned (run (new false (some 5)) inputs)
unfolding run step new on_dial dial_new lookup pump_step get on_event modify pop pump_finally
    on_cancel stop for_calls modem_call new_ctx handle_connected build_audio join_bridge
    start_recording handle_remote_hangup teardown drop_rings disable_pcm leave_rtc finish_recording
    leave_bridge stop_tasks
run-IsOwned_example = run-IsOwned false (some 5) inputs refl

-- the first call runs, and the second one has failed to join
abbrev running : List Input
running =
    dial good 7 ∷ at_event (connected good) 0 ∷ dial good 8 ∷ at_event (connected no_join) 1 ∷ []

stop-Stopped_example : Stopped (stop (run (new false (some 5)) running))
unfolding run step new on_dial dial_new lookup pump_step get on_event modify pop pump_finally
    modem_call new_ctx handle_connected build_audio join_bridge start_recording handle_remote_hangup
    teardown drop_rings disable_pcm leave_rtc finish_recording leave_bridge stop_tasks
stop-Stopped_example = stop-Stopped false (some 5) running refl

-- An id that is dialled again after its call has gone: the AT event pump of the call that is gone
-- takes the new one off the list, which still holds the modem's audio, a bridge and a recording.
abbrev redialled : List Input
redialled =
    dial good 7
    ∷ at_event (connected no_join) 0
    ∷ dial good 7
    ∷ at_event (connected good) 1
    ∷ at_event stream_end 0
    ∷ shut_down
    ∷ []

held_after : Option Ctx → Option Held
held_after none = none
held_after (some c) = some (held_of c)

redialled_leaks :
    ((run (new false (some 5)) redialled).calls ≡ [])
    × (held_after (get 1 (run (new false (some 5)) redialled).store)
        ≡ some (record { pcm = true; bridge = true; recording = true; rtc = false }))
unfolding run step new on_dial dial_new lookup pump_step get on_event modify pop pump_finally stop
    for_calls modem_call new_ctx handle_connected build_audio join_bridge start_recording
    handle_remote_hangup teardown drop_rings disable_pcm leave_rtc finish_recording leave_bridge
    stop_tasks held_after
redialled_leaks = (refl, refl)

end_cause-Told_example : to_proto (cause_text (mapped call_rejected)) ≢ unspecified
unfolding end_cause modem_dial classify_dial_failure first_cause cause_text
end_cause-Told_example = end_cause-Told (dial_answer (err (codes "+CEER: 41"))) "call_rejected" refl

-- the one cause of the drivers' map that the cloud would not know
unknown_cause : to_proto (cause_text (mapped temporary_failure)) ≡ unspecified
unfolding to_proto cause_text
unknown_cause = refl
