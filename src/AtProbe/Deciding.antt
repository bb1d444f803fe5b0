-- ===== src/AtProbe/Deciding.antt =====
-- What the two public functions of at_probe.py answer, on every branch.
use isales_telephony.Base.{
  ℕ, ◌≡◌, refl, Bool, true, Option, none, some, [], ◌∷◌, ◌++◌, ◌+◌, ◌==◌, ◌&&◌, ◌||◌, not,
  if◌then◌else◌, Bool-cases, inl, inr, Text, Outcome, ok, err,
}
use isales_telephony.AtProbe.{Line, Connection, ModemInitFailed, allow, probe_at_channel}
use isales_telephony.AtProbe.Channel.{
  ModemIdentity, read_modem_identity, SkippedReason, rate_limited, probe_no_ok, IdentifyResult,
  Finder, found_audio, Attempt, Session, in_whitelist, skip, with_identity, identify,
  identify_modem_channel,
}

abbrev pub present : {A : Type 0} → Option A → ℕ
present none = 0
present (some _) = 1

-- The fields of a result agree with each other.
pub record IsConsistent (finder : Finder) (r : IdentifyResult) : Type 0 where
  pub one : present r.identity + present r.init_failure + present r.skipped_reason ≡ 1
  pub channel : present r.skipped_reason ≡ (if r.is_at_channel then 0 else 1)
  pub audio : r.audio_serial_path ≡ (if present r.identity == 1 then found_audio finder else none)

with_identity-IsConsistent :
    (finder : Finder) (x : Outcome ModemInitFailed ModemIdentity × Line)
    → IsConsistent finder (with_identity finder x) × ((with_identity finder x).is_at_channel ≡ true)
with_identity-IsConsistent finder (err e, line) =
    (record { one = refl; channel = refl; audio = refl }, refl)
with_identity-IsConsistent finder (ok i, line) =
    (record { one = refl; channel = refl; audio = refl }, refl)

identify-IsConsistent :
    (finder : Finder) (c : Connection)
    → IsConsistent finder (identify finder c) × ((identify finder c).is_at_channel ≡ true)
unfolding identify
identify-IsConsistent finder (err e) = (record { one = refl; channel = refl; audio = refl }, refl)
identify-IsConsistent finder (ok reads) =
    with_identity-IsConsistent finder (read_modem_identity (record { reads = reads; written = [] }))

skip-IsConsistent : (finder : Finder) (reason : SkippedReason) → IsConsistent finder (skip reason)
skip-IsConsistent finder reason = record { one = refl; channel = refl; audio = refl }

-- Whitelisted nodes are not probed; others are AT channels where a probe is allowed and answered OK.
abbrev pub expected : (Text → Text → Bool) → Attempt → Session → Bool
expected whitelist a s =
    in_whitelist whitelist a.vendor_id a.product_id
    || (allow a.now a.device_node s.prober && probe_at_channel a.probe_line)

-- A decision, its fields and what it did to the session.
pub record IsDecided (whitelist : Text → Text → Bool) (a : Attempt) (s : Session)
    (r : IdentifyResult) (t : Session) : Type 0 where
  pub consistent : IsConsistent a.finder r
  pub channel : r.is_at_channel ≡ expected whitelist a s
  pub probed : t.probes ≡ (
      if not (in_whitelist whitelist a.vendor_id a.product_id) && allow a.now a.device_node s.prober
      then s.probes ++ (a.device_node, a.now) ∷ []
      else s.probes)

-- Whatever the arguments, the prober and the port: exactly one of identity, init_failure and
-- skipped_reason is set, skipped_reason just where the node is no AT channel, and an audio path only
-- beside an identity; the node is taken for an AT channel just where it is whitelisted or the prober
-- allows a probe that is answered by OK; and it is probed just where it is not whitelisted and the
-- prober allows it.
identify_modem_channel-IsDecided :
    (whitelist : Text → Text → Bool) (a : Attempt) (s : Session)
    → IsDecided whitelist a s
        (identify_modem_channel whitelist a s).0
        (identify_modem_channel whitelist a s).1
unfolding identify_modem_channel
identify_modem_channel-IsDecided whitelist a s =
    elim (Bool-cases (in_whitelist whitelist a.vendor_id a.product_id)) [
      | inl w ↦
          let i = identify-IsConsistent a.finder a.identity_line in
          rw w (record { consistent = i.0; channel = rw w i.1; probed = rw w refl })
      | inr w ↦ rw w (elim (Bool-cases (allow a.now a.device_node s.prober)) [
        | inl o ↦ rw o (elim (Bool-cases (probe_at_channel a.probe_line)) [
          | inl p ↦
              let i = identify-IsConsistent a.finder a.identity_line in
              rw p
                (record { consistent = i.0; channel = rw (w, o, p) i.1; probed = rw (w, o) refl })
          | inr p ↦ rw p (record {
            consistent = skip-IsConsistent a.finder probe_no_ok;
            channel = rw (w, o, p) refl;
            probed = rw (w, o) refl;
          })
        ])
        | inr o ↦ rw o (record {
          consistent = skip-IsConsistent a.finder rate_limited;
          channel = rw (w, o) refl;
          probed = rw (w, o) refl;
        })
      ])
    ]
