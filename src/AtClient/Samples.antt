-- ===== src/AtClient/Samples.antt =====
-- A call of one modem, from dial to hangup.
use isales_telephony.Base.{
  ℕ, Bool, ◌==◌, ◌≡◌, refl, true, false, none, some, List, [], ◌∷◌, ok, codes,
}
use isales_telephony.AtProtocol.{busy, ring}
use isales_telephony.AtClient.{
  connected, remote_hangup, manual_hangup, new, dial_begin, dial_end, hangup, on_urc,
  hangup_urc_cause, poll_for_connected, stream_next, stream_item, end_stream, reset_call_state,
}
use isales_telephony.AtClient.Streams.{
  Op, dial_op, atd_answered, hangup_op, urc_op, polled, read_next, step, run,
}
use isales_telephony.AtClient.Opening.{
  Answers, taken, init_raises, init_cancelled, reading_on, reader_raised, cancelled, reader_error,
  Leaves, create_from_tty, create_from_tty-Leaves, initialised, acquire_exclusive, at_aclose,
  release, clcc_has_active_call,
}

abbrev ops : List Op
ops =
    dial_op 7
    ∷ dial_op 8
    ∷ atd_answered (ok (record { connected = true; hangup_cause = none }))
    ∷ urc_op ring
    ∷ polled true
    ∷ read_next
    ∷ hangup_op 7
    ∷ urc_op busy
    ∷ read_next
    ∷ read_next
    ∷ []

run_runs : run new ops ≡ record new {
  stream = some (record {
    call_id = 7;
    connected_seen = true;
    ended = true;
    yielded = connected ∷ remote_hangup manual_hangup ∷ [];
  });
}
unfolding run step new dial_begin dial_end hangup on_urc hangup_urc_cause poll_for_connected
    stream_next stream_item end_stream reset_call_state
run_runs = refl

-- the modem is unplugged during the initialisation
abbrev unplugged : Answers
unplugged = record {
  windows = false;
  opening = none;
  fd = some 7;
  flock = taken;
  init = init_raises;
  reader = reader_raised;
}

create_from_tty-Leaves_example :
    Leaves false reader_raised (create_from_tty unplugged).1 (create_from_tty unplugged).0
create_from_tty-Leaves_example = create_from_tty-Leaves unplugged

unplugged_runs :
    create_from_tty unplugged
    ≡ (record { port_open = true; locked = true; reader_task = false }, reader_error)
unfolding create_from_tty acquire_exclusive initialised at_aclose release
unplugged_runs = refl

cancelled_runs :
    create_from_tty (record unplugged { init = init_cancelled; reader = reading_on })
    ≡ (record { port_open = true; locked = true; reader_task = true }, cancelled)
unfolding create_from_tty acquire_exclusive initialised
cancelled_runs = refl

abbrev spaces : ℕ → Bool
spaces c = c == 32

clcc_runs :
    (clcc_has_active_call spaces (codes "+CLCC: 1,0,3,0,0" ∷ codes "+CLCC: 2,1, 0,0,0" ∷ []) ≡ true)
    × (clcc_has_active_call spaces (codes "OK" ∷ codes "+CLCC 1,0,0" ∷ []) ≡ false)
unfolding clcc_has_active_call
clcc_runs = (refl, refl)
