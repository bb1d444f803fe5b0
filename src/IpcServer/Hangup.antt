-- ===== src/IpcServer/Hangup.antt =====
-- The hangup of handlers.py after a dial.
use isales_telephony.Base.{
  ℕ, suc, ◌≡◌, refl, ap, sym, subst, ◌∙◌, Bool, true, false, Option, none, some, List, [], ◌∷◌,
  ◌++◌, ◌==◌, ==_iff, dict_get, dict_set, dict_get-set, dict_get-pop, if◌then◌else◌,
}
use isales_telephony.RingBuffer.{Bytes}
use isales_telephony.IpcServer.{
  Message, Parsed, hangup_ack, Server, Pump, dialled, handle_dial, with_number, or_text, routed,
  or_legacy, hang_up, handle_hangup, end_pump,
}
use isales_telephony.IpcServer.Frames.{Input, run}
use isales_telephony.IpcServer.Routing.{Routes, AllOther, run-Routes}

-- the dial of a session routes it to the new call
handle_dial-Routes :
    (session call conn number : ℕ) (m : Message) (s : Server)
    → m.session_id ≡ some (suc session)
    → m.number ≡ some number
    → Routes (suc session) call (handle_dial conn m (some call) s)
unfolding handle_dial dialled or_text
handle_dial-Routes session call conn number m s h n =
    ap
      (λ (o : Option ℕ).
        dict_get (suc session) (with_number conn m (some call) o s).session_to_call)
      n
    ∙ ap
        (λ (o : Option ℕ).
          dict_get (suc session) (dict_set (or_text o call) call s.session_to_call))
        h
    ∙ dict_get-set (suc session) (suc session) call s.session_to_call
    ∙ rw ((==_iff (suc session) (suc session)).1 refl) refl

hang_up-logged :
    (conn call : ℕ) (m : Message) (raises : Bool) (s : Server)
    → (hang_up conn m raises (some call) s).hung_up ≡ s.hung_up ++ call ∷ []
hang_up-logged conn call m true s = refl
hang_up-logged conn call m false s = refl

-- what the route of a session makes of a hangup of it
route-hung_up :
    (session call : ℕ) (conn : ℕ) (m : Message) (raises : Bool) (s : Server)
    → m.session_id ≡ some (suc session)
    → Routes (suc session) (suc call) s
    → (handle_hangup conn m raises s).hung_up ≡ s.hung_up ++ suc call ∷ []
unfolding handle_hangup routed or_legacy
route-hung_up session call conn m raises s h r =
    ap (λ (o : Option ℕ). (hang_up conn m raises (or_legacy (routed o s) m.call_id) s).hung_up) h
    ∙ ap (λ (o : Option ℕ). (hang_up conn m raises (or_legacy o m.call_id) s).hung_up) r
    ∙ hang_up-logged conn (suc call) m raises s

-- A dial with a session id that is not empty, which the modem takes, and a hangup with that id on any
-- connection: whatever happens between them on any connection and to any pump, the call that the
-- modem gave for the dial is hung up, once and no other, provided no other dial with that session id
-- is taken and no pump of that session id moves meanwhile.
pub hangup_reaches :
    (loads : Bytes → Parsed) (session call conn number other : ℕ) (m n : Message) (raises : Bool)
    (is : List Input) (s : Server)
    → m.session_id ≡ some (suc session)
    → m.number ≡ some number
    → n.session_id ≡ some (suc session)
    → AllOther loads (suc session) is (handle_dial conn m (some (suc call)) s)
    → (handle_hangup other n raises (run loads is (handle_dial conn m (some (suc call)) s))).hung_up
      ≡ (run loads is (handle_dial conn m (some (suc call)) s)).hung_up ++ suc call ∷ []
hangup_reaches loads session call conn number other m n raises is s h hn k a =
    route-hung_up session call other n raises
      (run loads is (handle_dial conn m (some (suc call)) s)) k
      (run-Routes loads (suc session) (suc call) is (handle_dial conn m (some (suc call)) s) a
        (handle_dial-Routes session (suc call) conn number m s h hn))

-- The hangup was acknowledged, and the AT client was told nothing.
pub record IsLost (conn : ℕ) (n : Message) (s t : Server) : Type 0 where
  pub hung_up : t.hung_up ≡ s.hung_up
  pub acked : t.sent ≡ s.sent ++ (conn, hangup_ack n.session_id) ∷ []

-- Whenever a pump of a session ends, such as that of an earlier dial with the same session id, the
-- session is forgotten, whichever call it routed to: a hangup with that id and without a legacy call
-- id is then acknowledged, but no call is hung up.
pub stale_pump :
    (session k other : ℕ) (p : Pump) (n : Message) (raises : Bool) (s : Server)
    → p.session_id ≡ suc session
    → n.session_id ≡ some (suc session)
    → n.call_id ≡ none
    → IsLost other n (end_pump k p s) (handle_hangup other n raises (end_pump k p s))
unfolding handle_hangup routed or_legacy end_pump
stale_pump session k other p n raises s hp hn hc =
    let popped : dict_get (suc session) (end_pump k p s).session_to_call ≡ none =
      dict_get-pop (suc session) p.session_id s.session_to_call
      ∙ ap (λ (i : ℕ). if i == suc session then none else dict_get (suc session) s.session_to_call)
          hp
      ∙ rw ((==_iff (suc session) (suc session)).1 refl) refl in
    let nothing : or_legacy (routed n.session_id (end_pump k p s)) n.call_id ≡ none =
      ap (λ (o : Option ℕ). or_legacy (routed o (end_pump k p s)) n.call_id) hn
      ∙ ap (λ (o : Option ℕ). or_legacy o n.call_id) popped
      ∙ hc in
    subst
      (λ (o : Option ℕ).
        IsLost other n (end_pump k p s) (hang_up other n raises o (end_pump k p s)))
      (sym nothing) (record { hung_up = refl; acked = refl })
