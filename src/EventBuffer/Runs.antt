-- ===== src/EventBuffer/Runs.antt =====
-- Any sequence of calls on one buffer of sqlite_buffer.py.
use isales_telephony.Base.{
  ℕ, ◌+◌, ◌≤◌, Bool, true, false, List, [], ◌∷◌, Outcome, ok, err, arith, Bool-cases, inl, inr,
  length, length-append, not, if-cases,
}
use isales_telephony.EventBuffer.{
  Buffer, BufferError, Fault, sound, insert_raises, eviction_raises, open_, close, append,
  append_open, without_through, delete_through, clear,
}
use isales_telephony.EventBuffer.Invariant.{
  enforced_appended, appended-IsOrdered, inserted-IsSequenced, without-IsSequenced,
  length-without-le, sequenced, IsSequenced, IsOrdered,
}

-- The calls of a client; a flag or a fault says that SQLite raises.
pub data Call (P : Type 0) : Type 0 where
  open_call : Bool → Call P
  close_call : Call P
  append_call : Fault → P → Call P
  delete_call : Bool → ℕ → Call P
  clear_call : Bool → Call P

module _ {P : Type 0} where
  -- a call other than `append` that raises leaves the buffer as it was
  abbrev after : {A : Type 0} → Buffer P → (A → Buffer P) → Outcome BufferError A → Buffer P
  after b f (ok a) = f a
  after b f (err _) = b

  unfoldable pub step : Buffer P → Call P → Buffer P
  step b (open_call fails) = after b (λ s. s) (open_ fails b)
  step b close_call = close b
  step b (append_call fault p) = (append fault p b).1
  step b (delete_call fails seq) = after b (λ s. s.1) (delete_through fails seq b)
  step b (clear_call fails) = after b (λ s. s.1) (clear fails b)

  unfoldable pub run : Buffer P → List (Call P) → Buffer P
  run b [] = b
  run b (c ∷ cs) = run (step b c) cs

  -- The rows that a call may leave beyond the capacity.
  abbrev pub unevicted : Call P → ℕ
  unevicted (append_call eviction_raises p) = 1
  unevicted (append_call sound p) = 0
  unevicted (append_call insert_raises p) = 0
  unevicted (open_call fails) = 0
  unevicted close_call = 0
  unevicted (delete_call fails seq) = 0
  unevicted (clear_call fails) = 0

  unfoldable pub all_unevicted : List (Call P) → ℕ
  all_unevicted [] = 0
  all_unevicted (c ∷ cs) = unevicted c + all_unevicted cs

  -- The rows are in sequence, and at most `n` of them are beyond the capacity.
  pub record IsStored (n : ℕ) (b : Buffer P) : Type 0 where
    pub order : IsSequenced b
    pub fits : length b.rows ≤ b.capacity + n

  weaken : (n m : ℕ) (b : Buffer P) → n ≤ m → IsStored n b → IsStored m b
  weaken n m b le h = record { order = h.order; fits = omega (arith, h.fits) }

  reopened-IsStored :
      (n : ℕ) (b : Buffer P) (o : Bool) → IsStored n b → IsStored n (record b { is_open = o })
  reopened-IsStored n b o h = record {
    order = record { room = h.order.room; sorted = h.order.sorted; below = h.order.below };
    fits = h.fits;
  }

  ordered-IsStored : (n : ℕ) (b : Buffer P) → IsOrdered b → IsStored n b
  ordered-IsStored n b h = record { order = sequenced b h; fits = omega (arith, h.fits) }

  append_open-IsStored :
      (n : ℕ) (fault : Fault) (p : P) (b : Buffer P)
      → IsStored n b
      → IsStored (n + unevicted (append_call fault p)) (append_open fault p b).1
  append_open-IsStored n insert_raises p b h = weaken n (n + 0) b (omega arith) h
  append_open-IsStored n eviction_raises p b h = record {
    order = inserted-IsSequenced p b h.order;
    fits =
        omega
          (arith, h.fits, length-append b.rows (record { seq = b.last_seq + 1; payload = p } ∷ []));
  }
  append_open-IsStored n sound p b h =
      rw (enforced_appended p b h.order.room)
        (ordered-IsStored (n + 0) _ (appended-IsOrdered p b h.order))

  append-IsStored :
      (n : ℕ) (fault : Fault) (p : P) (b : Buffer P)
      → IsStored n b
      → IsStored (n + unevicted (append_call fault p)) (append fault p b).1
  unfolding append
  append-IsStored n fault p b h =
      let m = n + unevicted (append_call fault p) in
      if-cases (λ (r : Outcome BufferError ℕ × Buffer P). IsStored m (r.1)) (not b.is_open)
        (λ _. weaken n m b (omega arith) h) (λ _. append_open-IsStored n fault p b h)

  delete-IsStored :
      (n : ℕ) (fails : Bool) (seq : ℕ) (b : Buffer P)
      → IsStored n b
      → IsStored n (after b (λ s. s.1) (delete_through fails seq b))
  unfolding delete_through
  delete-IsStored n true seq b h = elim (Bool-cases b.is_open) [
    | inl o ↦ simp o h
    | inr o ↦ simp o h
  ]
  delete-IsStored n false seq b h = elim (Bool-cases b.is_open) [
    | inl o ↦ simp o (
        reopened-IsStored n (record b { rows = without_through seq b.rows }) true
          (record {
            order = without-IsSequenced seq b h.order;
            fits = omega (arith, h.fits, length-without-le seq b.rows);
          }))
    | inr o ↦ simp o h
  ]

  cleared-IsStored : (n : ℕ) (b : Buffer P) → IsStored n b → IsStored n (record b { rows = [] })
  cleared-IsStored n b h = record {
    order = record { room = h.order.room; sorted = tt; below = tt };
    fits = omega arith;
  }

  clear-IsStored :
      (n : ℕ) (fails : Bool) (b : Buffer P)
      → IsStored n b
      → IsStored n (after b (λ s. s.1) (clear fails b))
  unfolding clear
  clear-IsStored n true b h = elim (Bool-cases b.is_open) [ inl o ↦ simp o h | inr o ↦ simp o h ]
  clear-IsStored n false b h = elim (Bool-cases b.is_open) [
    | inl o ↦ simp o (reopened-IsStored n (record b { rows = [] }) true (cleared-IsStored n b h))
    | inr o ↦ simp o h
  ]

  open_-IsStored :
      (n : ℕ) (fails : Bool) (b : Buffer P)
      → IsStored n b
      → IsStored n (after b (λ s. s) (open_ fails b))
  unfolding open_
  open_-IsStored n true b h = elim (Bool-cases b.is_open) [ inl o ↦ simp o h | inr o ↦ simp o h ]
  open_-IsStored n false b h = elim (Bool-cases b.is_open) [
    | inl o ↦ simp o h
    | inr o ↦ simp o (reopened-IsStored n b true h)
  ]

  step-IsStored :
      (n : ℕ) (b : Buffer P) (c : Call P) → IsStored n b → IsStored (n + unevicted c) (step b c)
  unfolding step close
  step-IsStored n b (open_call fails) h =
      weaken n (n + 0) _ (omega arith) (open_-IsStored n fails b h)
  step-IsStored n b close_call h = weaken n (n + 0) _ (omega arith) (reopened-IsStored n b false h)
  step-IsStored n b (append_call fault p) h = append-IsStored n fault p b h
  step-IsStored n b (delete_call fails seq) h =
      weaken n (n + 0) _ (omega arith) (delete-IsStored n fails seq b h)
  step-IsStored n b (clear_call fails) h =
      weaken n (n + 0) _ (omega arith) (clear-IsStored n fails b h)

  -- Whatever the calls, and wherever SQLite raises in them: the rows stay in the order of their seqs,
  -- none passes the counter, and if at most `n` of them were beyond the capacity, then at most `n`
  -- are and one more for each append that raises behind its INSERT, while it evicts.
  pub run-IsStored :
      (n : ℕ) (b : Buffer P) (cs : List (Call P))
      → IsStored n b
      → IsStored (n + all_unevicted cs) (run b cs)
  unfolding run all_unevicted
  run-IsStored n b [] h = weaken n (n + 0) b (omega arith) h
  run-IsStored n b (c ∷ cs) h =
      weaken (n + unevicted c + all_unevicted cs) (n + (unevicted c + all_unevicted cs)) _
        (omega arith) (run-IsStored (n + unevicted c) (step b c) cs (step-IsStored n b c h))
