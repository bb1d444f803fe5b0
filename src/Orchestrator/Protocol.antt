-- ===== src/Orchestrator/Protocol.antt =====
-- What a call of orchestrator.py may do in which order, as a machine that reads the call's log.
use isales_telephony.Base.{
  ℕ, ◌+◌, ◌≡◌, ap, ◌∙◌, Bool, true, false, Option, none, some, List, [], ◌∷◌, ◌++◌, not, ◌&&◌, ◌||◌,
  length, keep, keep-append, length-append,
}
use isales_telephony.Orchestrator.{
  Ctx, Effect, hangup_event, cpcmreg_on, cpcmreg_off, bridge_join, bridge_leave, rtc_join,
  rtc_leave, begin_recording, finalize_recording,
}

-- What a call holds.
pub record Held : Type 0 where
  pub pcm : Bool
  pub bridge : Bool
  pub recording : Bool
  pub rtc : Bool

abbrev pub held_of : Ctx → Held
held_of c = record {
  pcm = c.cpcmreg_enabled;
  bridge = c.bridge;
  recording = c.recording;
  rtc = c.rtc_session;
}

abbrev pub nothing_held : Held
nothing_held = record { pcm = false; bridge = false; recording = false; rtc = false }

abbrev allowed : Bool → Held → Option Held
allowed true h = some h
allowed false h = none

-- Nothing is acquired twice or released without being held; the bridge needs the modem's audio, a
-- recording needs some audio; and the bridge is left first, then the recording is finished, then
-- the RTC session left, and the modem's audio is switched off last.
unfoldable pub held_step : Held → Effect → Option Held
held_step h cpcmreg_on = allowed (not h.pcm) (record h { pcm = true })
held_step h cpcmreg_off =
    allowed (h.pcm && not (h.bridge || (h.recording || h.rtc))) (record h { pcm = false })
held_step h bridge_join = allowed (h.pcm && not h.bridge) (record h { bridge = true })
held_step h bridge_leave = allowed h.bridge (record h { bridge = false })
held_step h begin_recording =
    allowed ((h.pcm || h.rtc) && not h.recording) (record h { recording = true })
held_step h finalize_recording =
    allowed (h.recording && not h.bridge) (record h { recording = false })
held_step h rtc_join = allowed (not h.rtc) (record h { rtc = true })
held_step h rtc_leave = allowed (h.rtc && not h.recording) (record h { rtc = false })
held_step h _ = some h

abbrev held_then : (Held → Option Held) → Option Held → Option Held
held_then f none = none
held_then f (some h) = f h

unfoldable pub replay : Held → List Effect → Option Held
replay h [] = some h
replay h (e ∷ es) = held_then (λ g. replay g es) (held_step h e)

abbrev is_hangup : Effect → Bool
is_hangup (hangup_event _ _) = true
is_hangup _ = false

unfoldable pub hangups : List Effect → ℕ
hangups es = length (keep is_hangup es)

pub hangups-append : (xs ys : List Effect) → hangups (xs ++ ys) ≡ hangups xs + hangups ys
unfolding hangups
hangups-append xs ys =
    ap length (keep-append is_hangup xs ys) ∙ length-append (keep is_hangup xs) (keep is_hangup ys)

some-injective : {h g : Held} → some h ≡ some g → h ≡ g
some-injective e = cc

append_held :
    (xs ys : List Effect) (o : Option Held) (g : Held)
    → ((f : Held) → replay f xs ≡ some g → replay f (xs ++ ys) ≡ replay g ys)
    → held_then (λ f. replay f xs) o ≡ some g
    → held_then (λ f. replay f (xs ++ ys)) o ≡ replay g ys
append_held xs ys none g ih q = cc
append_held xs ys (some f) g ih q = ih f q

pub replay-append :
    (xs ys : List Effect) (h g : Held) → replay h xs ≡ some g → replay h (xs ++ ys) ≡ replay g ys
unfolding replay
replay-append [] ys h g e = ap (λ f. replay f ys) (some-injective e)
replay-append (x ∷ xs) ys h g e =
    append_held xs ys (held_step h x) g (λ f. replay-append xs ys f g) e

abbrev pub Frame : Ctx → Ctx → Type 0
Frame z c =
    (c.terminated ≡ z.terminated)
    × (c.has_at ≡ z.has_at)
    × (c.connected_seen ≡ z.connected_seen)
    × (c.pump_alive ≡ z.pump_alive)
    × (c.tasks ≡ z.tasks)

-- The context `c` has come, by allowed effects and with `n` hangup events, to hold `p b r t`; in
-- the rest it is as `z`.
pub record Reached (p b r t : Bool) (n : ℕ) (z c : Ctx) : Type 0 where
  pub replayed :
      replay nothing_held c.log ≡ some (record { pcm = p; bridge = b; recording = r; rtc = t })
  pub counted : hangups c.log ≡ n
  pub pcm : c.cpcmreg_enabled ≡ p
  pub bridge : c.bridge ≡ b
  pub recording : c.recording ≡ r
  pub rtc : c.rtc_session ≡ t
  pub frame : Frame z c

-- one more effect
pub replayed_then :
    {p b r t : Bool} {n : ℕ} {z c : Ctx}
    → Reached p b r t n z c
    → (es : List Effect)
    → replay nothing_held (c.log ++ es)
      ≡ replay (record { pcm = p; bridge = b; recording = r; rtc = t }) es
replayed_then {c = c} h es = replay-append c.log es nothing_held _ h.replayed

pub counted_then :
    {p b r t : Bool} {n : ℕ} {z c : Ctx}
    → Reached p b r t n z c
    → (es : List Effect) → hangups (c.log ++ es) ≡ n + hangups es
counted_then {c = c} h es = hangups-append c.log es ∙ ap (λ k. k + hangups es) h.counted
