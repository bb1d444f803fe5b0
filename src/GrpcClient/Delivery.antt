-- ===== src/GrpcClient/Delivery.antt =====
-- Frames sent while the stream is down, and the reconnect that delivers them from the durable buffer.
use isales_telephony.Base.{
  ◌+◌, ◌-◌, ◌≤◌, ◌≡◌, refl, sym, ap, ◌∙◌, true, false, Option, some, List, [], ◌∷◌, ◌++◌, Outcome,
  ok, err, map, arith, length, drop, length-append, append-nil, append_assoc, subst,
}
use isales_telephony.EventBuffer.{Row, Buffer, sound, append}
use isales_telephony.EventBuffer.Invariant.{IsOrdered, append-Appended}
use isales_telephony.GrpcClient.{
  ClientError, frame, durable, Client, pending_buffer_size, queue_in, send, flush_backend,
  flush_buffer, open_stream,
}
use isales_telephony.GrpcClient.Flush.{frames_of, stuck_rows, flush_durable-eq}

module _ {P M : Type 0} (serialize : M → P) where
  abbrev pub then_send :
      (Client P M → Outcome ClientError (Client P M))
      → Outcome ClientError (Client P M)
      → Outcome ClientError (Client P M)
  then_send f (ok c) = f c
  then_send f (err e) = err e

  -- `send(m, critical=False)` for each frame in turn, with no fault of SQLite
  unfoldable pub send_all : List M → Client P M → Outcome ClientError (Client P M)
  send_all [] c = ok c
  send_all (m ∷ ms) c = then_send (send_all ms) (send serialize false m false c)

-- The rows hold these frames, one each and in order.
abbrev pub Holds : {P M : Type 0} → (P → Option M) → List (Row P) → List M → Type 0
Holds parse [] [] = Unit
Holds parse [] (m ∷ ms) = ⊥
Holds parse (r ∷ rs) [] = ⊥
Holds parse (r ∷ rs) (m ∷ ms) = (parse r.payload ≡ some m) × Holds parse rs ms

module _ {P M : Type 0} (parse : P → Option M) where
  frames_of-Holds : (rs : List (Row P)) (ms : List M) → Holds parse rs ms → frames_of parse rs ≡ ms
  unfolding frames_of
  frames_of-Holds [] [] h = refl
  frames_of-Holds [] (m ∷ ms) h = absurd h
  frames_of-Holds (r ∷ rs) [] h = absurd h
  frames_of-Holds (r ∷ rs) (m ∷ ms) h = rw (h.0, frames_of-Holds rs ms h.1)

  stuck_rows-Holds :
      (rs : List (Row P)) (ms : List M) → Holds parse rs ms → stuck_rows parse [] rs ≡ []
  unfolding stuck_rows
  stuck_rows-Holds [] [] h = refl
  stuck_rows-Holds [] (m ∷ ms) h = absurd h
  stuck_rows-Holds (r ∷ rs) [] h = absurd h
  stuck_rows-Holds (r ∷ rs) (m ∷ ms) h = rw h.0 (stuck_rows-Holds rs ms h.1)

  Holds-snoc :
      (rs : List (Row P)) (ms : List M) (r : Row P) (m : M)
      → Holds parse rs ms
      → parse r.payload ≡ some m
      → Holds parse (rs ++ r ∷ []) (ms ++ m ∷ [])
  Holds-snoc [] [] r m h e = (e, tt)
  Holds-snoc [] (n ∷ ms) r m h e = absurd h
  Holds-snoc (x ∷ rs) [] r m h e = absurd h
  Holds-snoc (x ∷ rs) (n ∷ ms) r m h e = (h.0, Holds-snoc rs ms r m h.1 e)

module _ {P M : Type 0} (parse : P → Option M) where
  -- What a reconnect finds of frames sent while the stream was down.
  pub record Delivered (ms : List M) (out : Outcome ClientError (Client P M)) : Type 0 where
    pub client : Client P M
    pub sent : out ≡ ok client
    pub reconnected : Client P M
    pub reopened : open_stream parse client ≡ ok reconnected
    pub queued : reconnected.outbound ≡ map frame ms
    pub drained : pending_buffer_size reconnected ≡ 0
    pub is_up : reconnected.connected ≡ true

module _ {P M : Type 0} (serialize : M → P) (parse : P → Option M)
    (parse-serialize : (m : M) → parse (serialize m) ≡ some m) where
  -- The client after some sends: nothing but its backend has changed.
  record Stored (c : Client P M) (held : List M) (out : Outcome ClientError (Client P M))
      : Type 0 where
    buffer : Buffer P
    result : out ≡ ok (record c { backend = durable buffer })
    ordered : IsOrdered buffer
    is_open : buffer.is_open ≡ true
    holds : Holds parse buffer.rows held

  send-durable :
      (m : M) (c : Client P M) (b s : Buffer P)
      → c.connected ≡ false
      → append sound (serialize m) b ≡ (ok (b.last_seq + 1), s)
      → send serialize false m false (record c { backend = durable b })
        ≡ ok (record c { backend = durable s })
  unfolding send queue_in
  send-durable m c b s off e = rw e (simp off)

  send_all-Stored :
      (ms held : List M) (c : Client P M) (b : Buffer P)
      → c.connected ≡ false
      → IsOrdered b
      → b.is_open ≡ true
      → Holds parse b.rows held
      → length b.rows + length ms ≤ b.capacity
      → Stored c (held ++ ms) (send_all serialize ms (record c { backend = durable b }))
  unfolding send_all
  send_all-Stored [] held c b off h o holds fits = record {
    buffer = b;
    result = refl;
    ordered = h;
    is_open = o;
    holds = rw append-nil holds;
  }
  send_all-Stored (m ∷ ms) held c b off h o holds fits =
      let (s, e, h', a, _) = append-Appended (serialize m) b h o in
      let r : Row P = record { seq = b.last_seq + 1; payload = serialize m } in
      let none_over : length b.rows + 1 - b.capacity ≡ 0 = omega arith in
      let rows' : s.rows ≡ b.rows ++ r ∷ [] =
        subst (λ k. s.rows ≡ drop k b.rows ++ r ∷ []) none_over a.rows in
      let longer : length s.rows ≡ length b.rows + 1 =
        ap length rows' ∙ length-append b.rows (r ∷ []) in
      let holds' : Holds parse s.rows (held ++ m ∷ []) =
        subst (λ l. Holds parse l (held ++ m ∷ [])) (sym rows')
          (Holds-snoc parse b.rows held r m holds (parse-serialize m)) in
      let rest =
        send_all-Stored ms (held ++ m ∷ []) c s off h' a.still_open holds'
          (omega (arith, a.capacity)) in
      rw (send-durable m c b s off e) (
        subst (λ l. Stored c l (send_all serialize ms (record c { backend = durable s })))
          (append_assoc held (m ∷ []) ms) rest)

  flush-durable :
      (c : Client P M) (b : Buffer P) (ms : List M)
      → IsOrdered b
      → b.is_open ≡ true
      → Holds parse b.rows ms
      → flush_backend parse (record c { outbound = [] }) (durable b)
        ≡ ok (record c { backend = durable (record b { rows = [] }); outbound = map frame ms })
  unfolding flush_backend
  flush-durable c b ms h o holds =
      rw
        (
          flush_durable-eq parse b [] h o,
          stuck_rows-Holds parse b.rows ms holds,
          frames_of-Holds parse b.rows ms holds,
        )
        (simp o)

  -- Frames sent as not critical while the stream is down go through the durable buffer: if they
  -- fit beside the frames that it holds, and SQLite does not raise, then no send raises, and the next
  -- stream that is accepted has all of them on its queue, the older ones first, each in order and
  -- once; the table is empty.
  pub offline_durable :
      (c : Client P M) (b : Buffer P) (held ms : List M)
      → c.connected ≡ false
      → IsOrdered b
      → b.is_open ≡ true
      → Holds parse b.rows held
      → length b.rows + length ms ≤ b.capacity
      → Delivered parse (held ++ ms) (send_all serialize ms (record c { backend = durable b }))
  offline_durable c b held ms off h o holds fits =
      let st = send_all-Stored ms held c b off h o holds fits in
      record {
        client = record c { backend = durable (st.buffer) };
        sent = st.result;
        reconnected = record c {
          backend = durable (record (st.buffer) { rows = [] });
          outbound = map frame (held ++ ms);
          connected = true;
          channel_open = true;
        };
        reopened =
            unfold open_stream flush_buffer in
            flush-durable
              (record c { backend = durable (st.buffer); channel_open = true; connected = true })
              st.buffer (held ++ ms) st.ordered st.is_open st.holds;
        queued = refl;
        drained = unfold pending_buffer_size in refl;
        is_up = refl;
      }
