-- ===== src/AtClient/Orderly.antt =====
-- Where a client of at_client.py stands between two steps, and the steps that keep it so.
use isales_telephony.Base.{
  ℕ, ◌+◌, ◌≤◌, ◌≡◌, refl, sym, ap, ◌∙◌, Bool, true, false, Option, none, some, List, [], ◌∷◌, ◌++◌,
  not, ◌&&◌, ==_iff, arith, length, keep, keep-append, length-append, if◌then◌else◌, Bool-cases,
  inl, inr, subst,
}
use isales_telephony.AtProtocol.{UrcType}
use isales_telephony.Drivers.{Cause}
use isales_telephony.AtClient.{
  Event, connected, remote_hangup, Stream, Line, reset_call_state, hangup, hangup_urc_cause,
  urc_event, on_urc, poll_for_connected, end_stream, stream_item, next_item, next_of, stream_next,
  close_queue, aclose, is_active,
}

abbrev is_connected : Event → Bool
is_connected connected = true
is_connected (remote_hangup _) = false

unfoldable pub connecteds : List Event → ℕ
connecteds es = length (keep is_connected es)

unfoldable pub hangups : List Event → ℕ
hangups es = length (keep (λ e. not (is_connected e)) es)

connecteds-append : (xs ys : List Event) → connecteds (xs ++ ys) ≡ connecteds xs + connecteds ys
unfolding connecteds
connecteds-append xs ys =
    ap length (keep-append is_connected xs ys)
    ∙ length-append (keep is_connected xs) (keep is_connected ys)

hangups-append : (xs ys : List Event) → hangups (xs ++ ys) ≡ hangups xs + hangups ys
unfolding hangups
hangups-append xs ys =
    ap length (keep-append (λ e. not (is_connected e)) xs ys)
    ∙ length-append (keep _ xs) (keep _ ys)

-- A stream yields `connected` once at most, and one hangup at most, at its end.
pub record IsShaped (s : Stream) : Type 0 where
  pub one_connected : connecteds s.yielded ≡ (if s.connected_seen then 1 else 0)
  pub one_hangup : hangups s.yielded ≤ (if s.ended then 1 else 0)

abbrev pub AreShaped : Option Stream → Type 0
AreShaped none = Unit
AreShaped (some s) = IsShaped s

abbrev pub is_running : Option Stream → Bool
is_running none = false
is_running (some s) = not s.ended

-- Where a client stands between two steps.
pub data Phase (l : Line) : Type 0 where
  idle : l.active ≡ none → l.dialling ≡ none → is_running l.stream ≡ false → Phase l
  waiting :
      (id : ℕ) → l.active ≡ some id → l.dialling ≡ some id → is_running l.stream ≡ false → Phase l
  running :
      (s : Stream)
      → l.active ≡ some s.call_id
      → l.dialling ≡ none
      → l.stream ≡ some s
      → s.ended ≡ false
      → Phase l

pub record IsOrderly (l : Line) : Type 0 where
  pub phase : Phase l
  pub shaped : AreShaped l.stream

-- a step that touches only the queue and the poller
queued-IsOrderly :
    (l : Line) (q : List (Option Event)) (p : Bool)
    → IsOrderly l
    → IsOrderly (record l { queue = q; polling = p })
queued-IsOrderly l q p h = record { phase = kept h.phase; shaped = h.shaped }
  where
    kept : Phase l → Phase (record l { queue = q; polling = p })
    kept (idle a b c) = idle a b c
    kept (waiting id a b c) = waiting id a b c
    kept (running s a b c d) = running s a b c d

pub hangup-IsOrderly : (id : ℕ) (l : Line) → IsOrderly l → IsOrderly (hangup id l)
unfolding hangup
hangup-IsOrderly id l h = elim (Bool-cases (is_active id l.active)) [
  | inl o ↦ rw o (queued-IsOrderly l _ l.polling h)
  | inr o ↦ rw o h
]

pub on_urc-IsOrderly : (type : UrcType) (l : Line) → IsOrderly l → IsOrderly (on_urc type l)
unfolding on_urc
on_urc-IsOrderly type l h = heard l.active (hangup_urc_cause type)
  where
    heard : (a : Option ℕ) (cause : Option Cause) → IsOrderly (urc_event l a cause)
    heard none cause = h
    heard (some id) none = h
    heard (some id) (some cause) = queued-IsOrderly l _ l.polling h

pub poll-IsOrderly : (b : Bool) (l : Line) → IsOrderly l → IsOrderly (poll_for_connected b l)
unfolding poll_for_connected
poll-IsOrderly b l h = elim (Bool-cases (l.polling && b)) [
  | inl o ↦ simp o (queued-IsOrderly l _ false h)
  | inr o ↦ simp o h
]

pub aclose-IsOrderly : (l : Line) → IsOrderly l → IsOrderly (aclose l)
unfolding aclose
aclose-IsOrderly l h = put l.active
  where
    put : (a : Option ℕ) → IsOrderly (close_queue (record l { polling = false }) a)
    put none = queued-IsOrderly l l.queue false h
    put (some id) = queued-IsOrderly l _ false h

ended-IsOrderly :
    (s : Stream) (l : Line)
    → l.active ≡ some s.call_id
    → l.dialling ≡ none
    → IsShaped (record s { ended = true })
    → IsOrderly (end_stream s l)
unfolding end_stream reset_call_state
ended-IsOrderly s l a d h =
    let own : is_active s.call_id l.active ≡ true =
      ap (is_active s.call_id) a ∙ (==_iff s.call_id s.call_id).1 refl in
    rw own (record { phase = idle refl d refl; shaped = h })

item-IsOrderly :
    (s : Stream) (item : Option Event) (l : Line)
    → l.active ≡ some s.call_id
    → l.dialling ≡ none
    → l.stream ≡ some s
    → s.ended ≡ false
    → IsShaped s
    → IsOrderly (stream_item s item l)
unfolding stream_item connecteds hangups
item-IsOrderly s none l a d e o h =
    ended-IsOrderly s l a d
      (record { one_connected = h.one_connected; one_hangup = omega (arith, rw o at h.one_hangup) })
item-IsOrderly s (some (remote_hangup cause)) l a d e o h =
    ended-IsOrderly (record s { yielded = s.yielded ++ remote_hangup cause ∷ [] }) l a d
      (record {
        one_connected =
            omega (arith, connecteds-append s.yielded (remote_hangup cause ∷ []), h.one_connected);
        one_hangup =
            omega
              (arith, hangups-append s.yielded (remote_hangup cause ∷ []), rw o at h.one_hangup);
      })
item-IsOrderly s (some connected) l a d e o h = elim (Bool-cases s.connected_seen) [
  | inl q ↦ simp q (record { phase = running s a d e o; shaped = subst AreShaped (sym e) h })
  | inr q ↦
      let t : Stream = record s { connected_seen = true; yielded = s.yielded ++ connected ∷ [] } in
      let fresh : connecteds s.yielded ≡ 0 = h.one_connected ∙ ap (λ b. if b then 1 else 0) q in
      simp q (record {
        phase = running t a d refl o;
        shaped = record {
          one_connected = omega (arith, connecteds-append s.yielded (connected ∷ []), fresh);
          one_hangup = omega (arith, hangups-append s.yielded (connected ∷ []), h.one_hangup);
        };
      })
]

pub next-IsOrderly : (l : Line) → IsOrderly l → IsOrderly (stream_next l)
unfolding stream_next
next-IsOrderly l h = at_phase h.phase
  where
    over : (o : Option Stream) → is_running o ≡ false → IsOrderly (next_of l o)
    over none e = h
    over (some s) e = elim (Bool-cases s.ended) [ inl q ↦ rw q h | inr q ↦ absurd (ground arith) ]

    drained :
        (s : Stream) (q : List (Option Event))
        → l.active ≡ some s.call_id
        → l.dialling ≡ none
        → l.stream ≡ some s
        → s.ended ≡ false
        → IsOrderly (next_item l s q)
    drained s [] a d e o = h
    drained s (item ∷ rest) a d e o =
        item-IsOrderly s item (record l { queue = rest }) a d e o (subst AreShaped e h.shaped)

    at_phase : Phase l → IsOrderly (next_of l l.stream)
    at_phase (idle a d e) = over l.stream e
    at_phase (waiting id a d e) = over l.stream e
    at_phase (running s a d e o) =
        subst (λ t. IsOrderly (next_of l t)) (sym e) (simp o (drained s l.queue a d e o))
