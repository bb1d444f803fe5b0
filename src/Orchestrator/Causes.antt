-- ===== src/Orchestrator/Causes.antt =====
-- The causes of hangups on their way from the modem to the cloud: drivers.py classifies a failed
-- dial, at_client.py a line of the modem, and orchestrator.py gives the cause to the cloud.
use Prim.Native.String.{String}
use isales_telephony.Base.{
  ◌≡◌, ◌≢◌, refl, sym, Bool, Option, none, some, Outcome, ok, err, Text, if-cases, subst,
}
use isales_telephony.Drivers.{
  Cause, user_hangup, user_busy, no_answer, network_out_of_order, call_rejected, normal_clearing,
  temporary_failure, dial,
}
use isales_telephony.Drivers.Causes.{has, reached_cause, classify_dial_failure-eq}
use isales_telephony.AtProtocol.{UrcType}
use isales_telephony.AtClient.{EndCause, mapped, manual_hangup, hangup_urc_cause, or_network}
use isales_telephony.Orchestrator.{to_proto, unspecified, network_error}

-- The texts that `HANGUP_CAUSE_MAP` has for its causes, and that of a hangup by the edge itself.
unfoldable pub cause_text : EndCause → String
cause_text (mapped user_hangup) = "user_hangup"
cause_text (mapped user_busy) = "user_busy"
cause_text (mapped no_answer) = "no_answer"
cause_text (mapped network_out_of_order) = "network_out_of_order"
cause_text (mapped call_rejected) = "call_rejected"
cause_text (mapped normal_clearing) = "normal_clearing"
cause_text (mapped temporary_failure) = "temporary_failure"
cause_text manual_hangup = "manual_hangup"

-- the cloud is told of a cause that it knows
abbrev pub IsKnown : EndCause → Type 0
IsKnown c = to_proto (cause_text c) ≢ unspecified

reached-IsKnown : (message : Text) → IsKnown (mapped (reached_cause message))
unfolding reached_cause cause_text to_proto
reached-IsKnown message =
    if-cases Known (has "NO CARRIER" message) (λ _ e. cc)
      (λ _.
        if-cases Known (has "BUSY" message) (λ _ e. cc)
          (λ _.
            if-cases Known (has "NO ANSWER" message) (λ _ e. cc)
              (λ _.
                if-cases Known (has "NO DIALTONE" message) (λ _ e. cc)
                  (λ _. if-cases Known (has "1" message) (λ _ e. cc) (λ _ e. cc)))))
  where
    Known : Cause → Type 0
    Known c = IsKnown (mapped c)

-- however `ATD` is answered
dial-IsKnown :
    (answer : Outcome Text Bool) → IsKnown (mapped (or_network (dial answer).hangup_cause))
unfolding dial cause_text to_proto
dial-IsKnown (ok b) = λ e. cc
dial-IsKnown (err message) =
    subst (λ c. IsKnown (mapped c)) (sym (classify_dial_failure-eq message))
      (reached-IsKnown message)

-- What ends a call: the answer to `ATD`, an unsolicited line of the modem, a hangup by the edge, a
-- connected call that cannot be served, and `dev_terminate_active_calls`.
pub data EndSource : Type 0 where
  dial_answer : Outcome Text Bool → EndSource
  urc : UrcType → EndSource
  edge_hangup unserved dev_terminated : EndSource

abbrev as_text : Option Cause → Option String
as_text none = none
as_text (some c) = some (cause_text (mapped c))

-- the cause that `_handle_remote_hangup` is given, if the source ends a call
unfoldable pub end_cause : EndSource → Option String
end_cause (dial_answer answer) = some (cause_text (mapped (or_network (dial answer).hangup_cause)))
end_cause (urc u) = as_text (hangup_urc_cause u)
end_cause edge_hangup = some (cause_text manual_hangup)
end_cause unserved = some network_error
end_cause dev_terminated = some "dev_terminate"

-- The cloud is told UNSPECIFIED of a call that `dev_terminate_active_calls` ends, and of no other.
abbrev pub Told : EndSource → String → Type 0
Told (dial_answer answer) cause = to_proto cause ≢ unspecified
Told (urc u) cause = to_proto cause ≢ unspecified
Told edge_hangup cause = to_proto cause ≢ unspecified
Told unserved cause = to_proto cause ≢ unspecified
Told dev_terminated cause = to_proto cause ≡ unspecified

abbrev Tells : EndSource → Option String → Type 0
Tells source none = Unit
Tells source (some cause) = Told source cause

end_cause-Tells : (source : EndSource) → Tells source (end_cause source)
unfolding end_cause hangup_urc_cause cause_text to_proto network_error
end_cause-Tells (dial_answer answer) = dial-IsKnown answer
end_cause-Tells (urc UrcType.ring) = tt
end_cause-Tells (urc UrcType.no_carrier) = λ q. cc
end_cause-Tells (urc UrcType.busy) = λ q. cc
end_cause-Tells (urc UrcType.no_dialtone) = λ q. cc
end_cause-Tells (urc UrcType.no_answer) = λ q. cc
end_cause-Tells (urc UrcType.clip) = tt
end_cause-Tells (urc UrcType.creg) = tt
end_cause-Tells (urc UrcType.cmti) = tt
end_cause-Tells (urc UrcType.other) = tt
end_cause-Tells edge_hangup = λ q. cc
end_cause-Tells unserved = λ q. cc
end_cause-Tells dev_terminated = refl

-- Whatever ends a call, with a cause: the answer to ATD or its exception, an unsolicited line, a
-- hangup by the edge, or a connected call that cannot be served, the cloud is told a cause that is
-- not UNSPECIFIED; and for a call that dev_terminate_active_calls ends it is told UNSPECIFIED.
pub end_cause-Told :
    (source : EndSource) (cause : String) → end_cause source ≡ some cause → Told source cause
end_cause-Told source cause e = subst (Tells source) e (end_cause-Tells source)
