-- ===== src/EventBuffer/Snapshot.antt =====
-- What a client reads: `list(buf.iter_pending())`.
use isales_telephony.Base.{
  ℕ, ◌+◌, ◌<◌, ◌≡◌, sym, ap, ◌∙◌, Option, none, some, List, [], ◌∷◌, ◌++◌, arith, length,
  append-nil, append_assoc,
}
use isales_telephony.EventBuffer.{
  Row, page_size, yielded, visit, reads_sound, BufferError, iter_pending,
}
use isales_telephony.EventBuffer.Paging.{
  IsSorted, IsBelow, visit_all, KeepsUnvisited, ended, iter_pending-eq-visit_all,
}

module _ {P M : Type 0} (parse : P → Option M) where
  abbrev cons_some : ℕ → Option M → List (ℕ × M) → List (ℕ × M)
  cons_some seq none rest = rest
  cons_some seq (some m) rest = (seq, m) ∷ rest

  -- The frames of the rows that parse, each with its seq, in the order of the rows.
  unfoldable pub decoded : List (Row P) → List (ℕ × M)
  decoded [] = []
  decoded (r ∷ rs) = cons_some r.seq (parse r.payload) (decoded rs)

  abbrev Reader : Type 0
  Reader = List (Row P) × List (ℕ × M)

  abbrev table : Reader → List (Row P)
  table s = s.0

  abbrev note : ℕ → M → Reader → Reader
  note seq m s = (s.0, s.1 ++ (seq, m) ∷ [])

  -- `list(buf.iter_pending())` on the table `rows`
  unfoldable pub list_pending : ℕ → List (Row P) → Option (Reader × Option BufferError)
  list_pending fuel rows = iter_pending parse table note reads_sound fuel page_size 0 (rows, [])

  note-table : (r : Row P) (s : Reader) → (visit parse table note r s).0 ≡ s.0
  unfolding visit
  note-table r s = ground arith

  IsBelow-suc : (n : ℕ) (rows : List (Row P)) → IsBelow n rows → IsBelow (n + 1) rows
  IsBelow-suc n [] b = tt
  IsBelow-suc n (r ∷ rs) b = (omega arith, IsBelow-suc n rs b.1)

  IsBelow-snoc :
      (done : List (Row P)) (r : Row P) → IsBelow r.seq done → IsBelow (r.seq + 1) (done ++ r ∷ [])
  IsBelow-snoc [] r b = (omega arith, tt)
  IsBelow-snoc (x ∷ done) r b = (omega arith, IsBelow-snoc done r b.1)

  note-keeps : KeepsUnvisited parse table note
  note-keeps r done rest s e b h = record {
    done = done ++ r ∷ [];
    split = note-table r s ∙ e ∙ sym (append_assoc done (r ∷ []) rest);
    below = IsBelow-snoc done r b;
  }

  noted_one :
      (seq : ℕ) (o : Option M) (rs : List (Row P)) (s : Reader)
      → ((t : Reader) → visit_all parse table note rs t ≡ (t.0, t.1 ++ decoded rs))
      → visit_all parse table note rs (yielded parse table note seq o s)
        ≡ (s.0, s.1 ++ cons_some seq o (decoded rs))
  noted_one seq none rs s ih = ih s
  noted_one seq (some m) rs s ih =
      ih (note seq m s) ∙ ap (λ l. (s.0, l)) (append_assoc s.1 ((seq, m) ∷ []) (decoded rs))

  noted :
      (rs : List (Row P)) (s : Reader) → visit_all parse table note rs s ≡ (s.0, s.1 ++ decoded rs)
  unfolding visit_all visit decoded
  noted [] s = rw append-nil
  noted (r ∷ rs) s = noted_one r.seq (parse r.payload) rs s (noted rs)

  -- With one turn of fuel for each row and one more, and if no SELECT raises, reading a table of rising seqs ends, leaves
  -- the table alone, and yields exactly the frames that parse, in order, however many pages it takes.
  pub list_pending-decoded :
      (fuel : ℕ) (rows : List (Row P))
      → length rows < fuel
      → IsSorted 0 rows
      → list_pending fuel rows ≡ some ((rows, decoded rows), none)
  unfolding list_pending
  list_pending-decoded fuel rows lt h =
      iter_pending-eq-visit_all parse table note note-keeps fuel 255 (rows, []) lt h
      ∙ ap ended (noted rows (rows, []))
