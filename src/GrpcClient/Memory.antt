-- ===== src/GrpcClient/Memory.antt =====
-- Frames sent while the stream is down, or just before, without a durable buffer.
use isales_telephony.Base.{
  ℕ, ◌+◌, ◌-◌, ◌≡◌, refl, sym, ap, ◌∙◌, Bool, true, false, Option, List, [], ◌∷◌, ◌++◌, ok, map,
  arith, length, drop, length-append, length-drop, drop_snoc, drop-drop, drop-nil, append-nil,
  append_assoc,
}
use isales_telephony.GrpcClient.{
  Item, frame, memory, Client, push_bounded, pending_buffer_size, queue_in, send, flush_memory,
  flush_backend, flush_buffer, open_stream, end_stream,
}
use isales_telephony.GrpcClient.Delivery.{send_all, Delivered}

-- The last `limit` of the frames.
unfoldable pub newest : {M : Type 0} → ℕ → List M → List M
newest limit ms = drop (length ms - limit) ms

newest-nil : {M : Type 0} (limit : ℕ) → newest {M = M} limit [] ≡ []
unfolding newest
newest-nil limit = drop-nil (0 - limit)

push_bounded-newest :
    {M : Type 0} (limit : ℕ) (m : M) (ms : List M)
    → push_bounded limit m (newest limit ms) ≡ newest limit (ms ++ m ∷ [])
unfolding newest push_bounded
push_bounded-newest limit m ms =
    let k = length ms - limit in
    let left : length (drop k ms) ≡ length ms - k = length-drop k ms in
    let j = length (drop k ms) + 1 - limit in
    let sum : k + j ≡ length (ms ++ m ∷ []) - limit = omega (arith, length-append ms (m ∷ [])) in
    ap (λ l. drop j l) (sym (drop_snoc k ms m (omega arith)))
    ∙ drop-drop j k (ms ++ m ∷ [])
    ∙ ap (λ n. drop n (ms ++ m ∷ [])) sum

flush_memory-eq :
    {M : Type 0} (ms : List M) (out : List (Item M)) → flush_memory ms out ≡ out ++ map frame ms
unfolding flush_memory
flush_memory-eq [] out = sym (append-nil out)
flush_memory-eq (m ∷ ms) out =
    flush_memory-eq ms (out ++ frame m ∷ []) ∙ append_assoc out (frame m ∷ []) (map frame ms)

module _ {P M : Type 0} (serialize : M → P) where
  send-memory :
      (m : M) (c : Client P M) (ms : List M)
      → c.connected ≡ false
      → send serialize false m false (record c { backend = memory ms })
        ≡ ok (record c { backend = memory (push_bounded c.config.memory_buffer_limit m ms) })
  unfolding send queue_in
  send-memory m c ms off = simp off

  send_all-memory :
      (ms held : List M) (c : Client P M)
      → c.connected ≡ false
      → send_all serialize ms
          (record c { backend = memory (newest c.config.memory_buffer_limit held) })
        ≡ ok (record c { backend = memory (newest c.config.memory_buffer_limit (held ++ ms)) })
  unfolding send_all
  send_all-memory [] held c off = rw append-nil
  send_all-memory (m ∷ ms) held c off =
      let limit = c.config.memory_buffer_limit in
      rw (send-memory m c (newest limit held) off, push_bounded-newest limit m held)
        (send_all-memory ms (held ++ m ∷ []) c off
          ∙ ap (λ l. ok (record c { backend = memory (newest limit l) }))
              (append_assoc held (m ∷ []) ms))

  -- Frames sent as not critical while the stream is down go through the in-memory buffer: no send
  -- raises, however many there are, and the next stream that is accepted has on its queue exactly
  -- the last `memory_buffer_limit` of them, in order; the buffer is empty.
  pub offline_memory :
      (parse : P → Option M) (c : Client P M) (ms : List M)
      → c.connected ≡ false
      → Delivered parse
          (newest c.config.memory_buffer_limit ms)
          (send_all serialize ms (record c { backend = memory [] }))
  offline_memory parse c ms off =
      let limit = c.config.memory_buffer_limit in
      let left = newest limit ms in
      record {
        client = record c { backend = memory left };
        sent =
            ap (λ l. send_all serialize ms (record c { backend = memory l }))
              (sym (newest-nil limit))
            ∙ send_all-memory ms [] c off;
        reconnected = record c {
          backend = memory [];
          outbound = map frame left;
          connected = true;
          channel_open = true;
        };
        reopened = unfold open_stream flush_buffer flush_backend in rw (flush_memory-eq left []);
        queued = refl;
        drained = unfold pending_buffer_size in refl;
        is_up = refl;
      }

-- A frame that `send` accepts while the stream is up, and that is still on the queue when the
-- stream ends, is lost with it: with nothing in the in-memory buffer, the next stream starts with
-- an empty queue, and no buffer holds the frame, critical or not.
pub queued_frame_lost :
    {P M : Type 0} (serialize : M → P) (parse : P → Option M) (m : M) (critical : Bool)
    (c : Client P M)
    → c.connected ≡ true
    → (s r : Client P M) × (send serialize false m critical (record c { backend = memory [] })
        ≡ ok s)
      × (s.outbound ≡ c.outbound ++ frame m ∷ [])
      × (open_stream parse (end_stream s) ≡ ok r)
      × (r.outbound ≡ [])
      × (pending_buffer_size r ≡ 0)
unfolding send open_stream end_stream flush_buffer flush_backend flush_memory pending_buffer_size
queued_frame_lost serialize parse m critical c on = (
  record c { backend = memory []; outbound = c.outbound ++ frame m ∷ [] },
  record c { backend = memory []; outbound = []; connected = true; channel_open = true },
  simp on,
  refl,
  refl,
  refl,
  refl,
)
