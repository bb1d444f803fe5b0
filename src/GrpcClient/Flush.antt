-- ===== src/GrpcClient/Flush.antt =====
-- `_flush_buffer` of grpc_client.py over the durable buffer, pages and deletions included.
use isales_telephony.Base.{
  ℕ, ◌+◌, ◌-◌, ok, err, ◌<◌, ◌≡◌, refl, sym, ap, ◌∙◌, true, false, Bool-cases, Option-cases, inl,
  inr, Option, none, some, List, [], ◌∷◌, ◌++◌, map, arith, length, append-nil, append_assoc,
}
use isales_telephony.EventBuffer.{Row, Buffer, BufferError, delete_through, without_through, visit}
use isales_telephony.EventBuffer.Paging.{
  IsSorted, IsBelow, IsBelow-weaken, visit_all, IsTail, KeepsUnvisited, ended,
  iter_pending-eq-visit_all,
}
use isales_telephony.EventBuffer.Invariant.{IsOrdered}
use isales_telephony.GrpcClient.{
  Item, frame, Flushing, rows_of, row_deleted, put_and_delete, put_row, flush_durable,
}

module _ {P : Type 0} where
  without-IsSorted :
      (seq after : ℕ) (rows : List (Row P))
      → seq < after
      → IsSorted after rows
      → without_through seq rows ≡ rows
  unfolding without_through
  without-IsSorted seq after [] lt h = refl
  without-IsSorted seq after (r ∷ rs) lt h =
      ground (arith, without-IsSorted seq (r.seq + 1) rs (omega arith) h.1)

  without-visited :
      (r : Row P) (done rest : List (Row P))
      → IsBelow r.seq done
      → IsSorted (r.seq + 1) rest
      → without_through r.seq (done ++ r ∷ rest) ≡ rest
  unfolding without_through
  without-visited r [] rest b h =
      ground (arith, without-IsSorted r.seq (r.seq + 1) rest (omega arith) h)
  without-visited r (x ∷ done) rest b h = ground (arith, without-visited r done rest b.1 h)

  IsBelow-snoc :
      (done : List (Row P)) (r : Row P) → IsBelow r.seq done → IsBelow (r.seq + 1) (done ++ r ∷ [])
  IsBelow-snoc [] r b = (omega arith, tt)
  IsBelow-snoc (x ∷ done) r b = (omega arith, IsBelow-snoc done r b.1)

module _ {P : Type 0} where
  delete-open :
      (seq : ℕ) (b : Buffer P)
      → b.is_open ≡ true
      → delete_through false seq b
        ≡ ok (
          length b.rows - length (without_through seq b.rows),
          record b { rows = without_through seq b.rows },
        )
  unfolding delete_through
  delete-open seq b o = simp o

  delete-closed :
      (seq : ℕ) (b : Buffer P)
      → b.is_open ≡ false
      → delete_through false seq b ≡ err BufferError.not_opened
  unfolding delete_through
  delete-closed seq b o = simp o

module _ {P M : Type 0} where
  row-open :
      (seq : ℕ) (m : M) (b : Buffer P) (out : List (Item M))
      → b.is_open ≡ true
      → put_row seq m (b, out)
        ≡ (record b { rows = without_through seq b.rows }, out ++ frame m ∷ [])
  unfolding put_and_delete
  row-open seq m b out o = ap (λ r. (row_deleted b (out ++ frame m ∷ []) r).0) (delete-open seq b o)

  row-closed :
      (seq : ℕ) (m : M) (b : Buffer P) (out : List (Item M))
      → b.is_open ≡ false
      → put_row seq m (b, out) ≡ (b, out ++ frame m ∷ [])
  unfolding put_and_delete
  row-closed seq m b out o =
      ap (λ r. (row_deleted b (out ++ frame m ∷ []) r).0) (delete-closed seq b o)

module _ {P M : Type 0} (parse : P → Option M) where
  abbrev found : Option M → List M → List M
  found none ms = ms
  found (some m) ms = m ∷ ms

  abbrev kept_behind : Option M → Row P → List (Row P) → List (Row P)
  kept_behind none r kept = kept ++ r ∷ []
  kept_behind (some m) r kept = []

  -- The frames that a flush finds: those of the rows that parse, in the order of the rows.
  unfoldable pub frames_of : List (Row P) → List M
  frames_of [] = []
  frames_of (r ∷ rs) = found (parse r.payload) (frames_of rs)

  -- The rows behind the last one that parses; `kept` are those seen since the one before.
  unfoldable pub stuck_rows : List (Row P) → List (Row P) → List (Row P)
  stuck_rows kept [] = kept
  stuck_rows kept (r ∷ rs) = stuck_rows (kept_behind (parse r.payload) r kept) rs

  abbrev visited : Row P → Flushing P M → Flushing P M
  visited = visit parse rows_of put_row

  visited-none : (r : Row P) (s : Flushing P M) → parse r.payload ≡ none → visited r s ≡ s
  unfolding visit
  visited-none r s e = rw e

  visited-some :
      (r : Row P) (m : M) (done rest : List (Row P)) (b : Buffer P) (out : List (Item M))
      → parse r.payload ≡ some m
      → b.is_open ≡ true
      → b.rows ≡ done ++ r ∷ rest
      → IsBelow r.seq done
      → IsSorted (r.seq + 1) rest
      → visited r (b, out) ≡ (record b { rows = rest }, out ++ frame m ∷ [])
  unfolding visit
  visited-some r m done rest b out e o split below sorted =
      let left : without_through r.seq b.rows ≡ rest =
        ap (without_through r.seq) split ∙ without-visited r done rest below sorted in
      rw (e, row-open r.seq m b out o)
        (ap (λ l. let s : Flushing P M = (record b { rows = l }, out ++ frame m ∷ []) in s) left)

  -- a row that does not parse joins `kept`; behind one that parses nothing is kept
  flushed_rows :
      (rs kept : List (Row P)) (b : Buffer P) (out : List (Item M))
      → b.is_open ≡ true
      → b.rows ≡ kept ++ rs
      → (after : ℕ) → IsBelow after kept
      → IsSorted after rs
      → visit_all parse rows_of put_row rs (b, out)
        ≡ (record b { rows = stuck_rows kept rs }, out ++ map frame (frames_of rs))
  unfolding visit_all frames_of stuck_rows
  flushed_rows [] kept b out o split after below sorted =
      let same : kept ≡ b.rows = sym (split ∙ append-nil kept) in rw (same, append-nil)
  flushed_rows (r ∷ rs) kept b out o split after below sorted =
      let below' = IsBelow-weaken kept sorted.0 below in
      elim (Option-cases (parse r.payload)) [
        | inl e ↦
            rw (visited-none r (b, out) e, e)
              (flushed_rows rs (kept ++ r ∷ []) b out o
                (split ∙ sym (append_assoc kept (r ∷ []) rs)) (r.seq + 1)
                (IsBelow-snoc kept r below') sorted.1)
        | inr (m, e) ↦
            rw (visited-some r m kept rs b out e o split below' sorted.1, e)
              (flushed_rows rs [] (record b { rows = rs }) (out ++ frame m ∷ []) o refl (r.seq + 1)
                  tt sorted.1
                ∙ ap (λ l. let s : Flushing P M = (record b { rows = stuck_rows [] rs }, l) in s)
                    (append_assoc out (frame m ∷ []) (map frame (frames_of rs))))
      ]

  visited-closed :
      (r : Row P) (m : M) (b : Buffer P) (out : List (Item M))
      → parse r.payload ≡ some m
      → b.is_open ≡ false
      → visited r (b, out) ≡ (b, out ++ frame m ∷ [])
  unfolding visit
  visited-closed r m b out e o = rw (e, row-closed r.seq m b out o)

  abbrev Tail : Row P → List (Row P) → Flushing P M → Type 0
  Tail = IsTail parse rows_of put_row

  stopped-KeepsUnvisited :
      (r : Row P) (done rest : List (Row P)) (s : Flushing P M)
      → rows_of s ≡ done ++ r ∷ rest
      → IsBelow r.seq done
      → Tail r rest s
  stopped-KeepsUnvisited r done rest s e b = record {
    done = done ++ r ∷ [];
    split = e ∙ sym (append_assoc done (r ∷ []) rest);
    below = IsBelow-snoc done r b;
  }

  put_row-keeps : KeepsUnvisited parse rows_of put_row
  put_row-keeps r done rest (b, out) e below sorted = elim (Option-cases (parse r.payload)) [
    | inl n ↦ rw (visited-none r (b, out) n) (stopped-KeepsUnvisited r done rest (b, out) e below)
    | inr (m, j) ↦ elim (Bool-cases b.is_open) [
      | inl o ↦
          rw (visited-some r m done rest b out j o e below sorted)
            (record { done = []; split = refl; below = tt })
      | inr o ↦
          rw (visited-closed r m b out j o)
            (stopped-KeepsUnvisited r done rest (b, out ++ frame m ∷ []) e below)
    ]
  ]

  -- A flush of an open buffer with ordered rows, where SQLite does not raise, ends with the fuel it
  -- is given and raises nothing. It puts the frame of every row that parses on the queue, in order,
  -- behind what is there, and leaves in the table only the rows behind the last one that parses.
  pub flush_durable-eq :
      (b : Buffer P) (out : List (Item M))
      → IsOrdered b
      → b.is_open ≡ true
      → flush_durable parse (length b.rows + 1) (b, out)
        ≡ some
            ((record b { rows = stuck_rows [] b.rows }, out ++ map frame (frames_of b.rows)), none)
  unfolding flush_durable
  flush_durable-eq b out h o =
      iter_pending-eq-visit_all parse rows_of put_row put_row-keeps (length b.rows + 1) 255 (b, out)
        (omega arith) h.sorted
      ∙ ap ended (flushed_rows b.rows [] b out o refl 0 tt h.sorted)
