-- ===== src/EventBuffer/Invariant.antt =====
-- What holds of the table of sqlite_buffer.py between two calls, and what `append` does to it.
use isales_telephony.Base.{
  ℕ, zero, suc, ap, Outcome, if-cases, not, ◌+◌, ◌-◌, ◌≤◌, ◌<◌, ◌≡◌, refl, true, List, [], ◌∷◌,
  ◌++◌, ok, arith, leb, ltb, leb→le, Bool-cases, inl, inr, length, drop, length-append, length-drop,
  drop_snoc,
}
use isales_telephony.EventBuffer.{
  Row, Buffer, BufferError, sound, enforce_capacity, count_evicted, append, inserted,
  without_through,
}
use isales_telephony.EventBuffer.Paging.{IsSorted, IsBelow}

module _ {P : Type 0} where
  -- The seqs rise and never pass the counter.
  pub record IsSequenced (b : Buffer P) : Type 0 where
    pub room : 0 < b.capacity
    pub sorted : IsSorted 0 b.rows
    pub below : IsBelow (b.last_seq + 1) b.rows

  -- The seqs rise and never pass the counter, and the table holds no more than the capacity.
  pub record IsOrdered (b : Buffer P) : Type 0 where
    pub room : 0 < b.capacity
    pub fits : length b.rows ≤ b.capacity
    pub sorted : IsSorted 0 b.rows
    pub below : IsBelow (b.last_seq + 1) b.rows

  pub sequenced : (b : Buffer P) → IsOrdered b → IsSequenced b
  sequenced b h = record { room = h.room; sorted = h.sorted; below = h.below }

  IsSorted-snoc :
      (after : ℕ) (rows : List (Row P)) (r : Row P)
      → after ≤ r.seq
      → IsBelow r.seq rows
      → IsSorted after rows
      → IsSorted after (rows ++ r ∷ [])
  IsSorted-snoc after [] r h b s = (h, tt)
  IsSorted-snoc after (x ∷ rows) r h b s =
      (s.0, IsSorted-snoc (x.seq + 1) rows r (omega arith) b.1 s.1)

  IsBelow-snoc :
      (n : ℕ) (rows : List (Row P)) (r : Row P)
      → r.seq < n + 1
      → IsBelow n rows
      → IsBelow (n + 1) (rows ++ r ∷ [])
  IsBelow-snoc n [] r h b = (h, tt)
  IsBelow-snoc n (x ∷ rows) r h b = (omega arith, IsBelow-snoc n rows r h b.1)

  IsSorted-lower : {a b : ℕ} (rows : List (Row P)) → a ≤ b → IsSorted b rows → IsSorted a rows
  IsSorted-lower [] h s = tt
  IsSorted-lower (r ∷ rs) h s = (omega arith, s.1)

  IsSorted-drop :
      (k after : ℕ) (rows : List (Row P)) → IsSorted after rows → IsSorted after (drop k rows)
  IsSorted-drop zero after rows s = s
  IsSorted-drop (suc k) after [] s = tt
  IsSorted-drop (suc k) after (r ∷ rs) s =
      IsSorted-lower (drop k rs) (omega arith) (IsSorted-drop k (r.seq + 1) rs s.1)

  IsBelow-drop : (k n : ℕ) (rows : List (Row P)) → IsBelow n rows → IsBelow n (drop k rows)
  IsBelow-drop zero n rows b = b
  IsBelow-drop (suc k) n [] b = tt
  IsBelow-drop (suc k) n (r ∷ rs) b = IsBelow-drop k n rs b.1

  -- What `append` leaves: the rows but for the oldest beyond the capacity, then the new row.
  pub record Appended (payload : P) (b s : Buffer P) : Type 0 where
    pub rows :
        s.rows
        ≡ drop (length b.rows + 1 - b.capacity) b.rows
          ++ record { seq = b.last_seq + 1; payload = payload } ∷ []
    pub counted : s.evicted_rows ≡ b.evicted_rows + (length b.rows + 1 - b.capacity)
    pub counter : s.last_seq ≡ b.last_seq + 1
    pub capacity : s.capacity ≡ b.capacity
    pub still_open : s.is_open ≡ true

  pub appended : P → Buffer P → Buffer P
  appended payload b = record b {
    rows =
        drop (length b.rows + 1 - b.capacity) b.rows
        ++ record { seq = b.last_seq + 1; payload = payload } ∷ [];
    last_seq = b.last_seq + 1;
    evicted_rows = b.evicted_rows + (length b.rows + 1 - b.capacity);
  }

  enforced : Buffer P → Buffer P
  enforced b = record b {
    rows = drop (length b.rows - b.capacity) b.rows;
    evicted_rows = b.evicted_rows + (length b.rows - b.capacity);
  }

  enforce-eq : (b : Buffer P) → count_evicted (enforce_capacity b) ≡ enforced b
  unfolding enforce_capacity enforced count_evicted
  enforce-eq b = elim (Bool-cases (leb (length b.rows) b.capacity)) [
    | inl fits ↦
        let none_over : length b.rows - b.capacity ≡ 0 =
          omega (arith, leb→le (length b.rows) b.capacity fits) in
        rw (fits, none_over) (ground arith)
    | inr over ↦ rw over
  ]

  pub enforced_appended :
      (payload : P) (b : Buffer P)
      → 0 < b.capacity
      → count_evicted (enforce_capacity (inserted payload b)) ≡ appended payload b
  unfolding appended enforced
  enforced_appended payload b room =
      let n : Row P = record { seq = b.last_seq + 1; payload = payload } in
      let longer : length (b.rows ++ n ∷ []) ≡ length b.rows + 1 =
        omega (arith, length-append b.rows (n ∷ [])) in
      rw
        (
          enforce-eq (record b { rows = b.rows ++ n ∷ []; last_seq = b.last_seq + 1 }),
          longer,
          drop_snoc (length b.rows + 1 - b.capacity) b.rows n (omega arith),
        )
        refl

  pub append-eq :
      (payload : P) (b : Buffer P)
      → 0 < b.capacity
      → b.is_open ≡ true
      → append sound payload b ≡ (ok (b.last_seq + 1), appended payload b)
  unfolding append
  append-eq payload b room o =
      let seq = b.last_seq + 1 in
      if-cases (λ (r : Outcome BufferError ℕ × Buffer P). r ≡ (ok seq, appended payload b))
        (not b.is_open) (λ q. absurd (ground (arith, q, o)))
        (λ _.
          ap (λ s. let r : Outcome BufferError ℕ × Buffer P = (ok seq, s) in r)
            (enforced_appended payload b room))

  pub appended-IsOrdered :
      (payload : P) (b : Buffer P) → IsSequenced b → IsOrdered (appended payload b)
  unfolding appended
  appended-IsOrdered payload b h =
      let k = length b.rows + 1 - b.capacity in
      let r : Row P = record { seq = b.last_seq + 1; payload = payload } in
      let left = drop k b.rows in
      record {
        room = h.room;
        fits = omega (arith, length-append left (r ∷ []), length-drop k b.rows, h.room);
        sorted =
            IsSorted-snoc 0 left r (omega arith) (IsBelow-drop k r.seq b.rows h.below)
              (IsSorted-drop k 0 b.rows h.sorted);
        below = IsBelow-snoc r.seq left r (omega arith) (IsBelow-drop k r.seq b.rows h.below);
      }

  pub inserted-IsSequenced :
      (payload : P) (b : Buffer P) → IsSequenced b → IsSequenced (inserted payload b)
  inserted-IsSequenced payload b h = record {
    room = h.room;
    sorted = IsSorted-snoc 0 b.rows _ (omega arith) h.below h.sorted;
    below = IsBelow-snoc (b.last_seq + 1) b.rows _ (omega arith) h.below;
  }

  appended-Appended :
      (payload : P) (b : Buffer P) → b.is_open ≡ true → Appended payload b (appended payload b)
  unfolding appended
  appended-Appended payload b o = record {
    rows = refl;
    counted = refl;
    counter = refl;
    capacity = refl;
    still_open = o;
  }

  -- On an open buffer with ordered rows, where SQLite does not raise, `append` returns a seq above
  -- every stored one, keeps the invariant, and evicts just the oldest rows beyond the capacity:
  -- never the new row, which stands last.
  pub append-Appended :
      (payload : P) (b : Buffer P)
      → IsOrdered b
      → b.is_open ≡ true
      → (s : Buffer P) × (append sound payload b ≡ (ok (b.last_seq + 1), s))
        × IsOrdered s
        × Appended payload b s
        × IsBelow (b.last_seq + 1) b.rows
  append-Appended payload b h o = (
    appended payload b,
    append-eq payload b h.room o,
    appended-IsOrdered payload b (sequenced b h),
    appended-Appended payload b o,
    h.below,
  )

  IsSorted-without :
      (seq after : ℕ) (rows : List (Row P))
      → IsSorted after rows
      → IsSorted after (without_through seq rows)
  unfolding without_through
  IsSorted-without seq after [] s = tt
  IsSorted-without seq after (r ∷ rs) s =
      let ih = IsSorted-without seq (r.seq + 1) rs s.1 in
      elim (Bool-cases (ltb seq r.seq)) [
        | inl e ↦ rw e (s.0, ih)
        | inr e ↦ rw e (IsSorted-lower (without_through seq rs) (omega arith) ih)
      ]

  IsBelow-without :
      (seq n : ℕ) (rows : List (Row P)) → IsBelow n rows → IsBelow n (without_through seq rows)
  unfolding without_through
  IsBelow-without seq n [] b = tt
  IsBelow-without seq n (r ∷ rs) b =
      let ih = IsBelow-without seq n rs b.1 in
      elim (Bool-cases (ltb seq r.seq)) [ inl e ↦ rw e (b.0, ih) | inr e ↦ rw e ih ]

  pub length-without-le :
      (seq : ℕ) (rows : List (Row P)) → length (without_through seq rows) ≤ length rows
  unfolding without_through
  length-without-le seq [] = omega arith
  length-without-le seq (r ∷ rs) = ground (arith, length-without-le seq rs)

  pub without-IsSequenced :
      (seq : ℕ) (b : Buffer P)
      → IsSequenced b
      → IsSequenced (record b { rows = without_through seq b.rows })
  without-IsSequenced seq b h = record {
    room = h.room;
    sorted = IsSorted-without seq 0 b.rows h.sorted;
    below = IsBelow-without seq (b.last_seq + 1) b.rows h.below;
  }
