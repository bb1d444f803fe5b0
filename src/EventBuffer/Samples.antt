-- ===== src/EventBuffer/Samples.antt =====
-- Runs of the event buffer on small tables. A payload is a number, and 13 does not parse.
use isales_telephony.Base.{
  ℕ, ◌+◌, ◌≡◌, refl, true, false, Option, none, some, List, [], ◌∷◌, ◌++◌, ok, err, arith, ◌==◌,
  if◌then◌else◌,
}
use isales_telephony.EventBuffer.{
  Row, Buffer, read_failed, sound, insert_raises, eviction_raises, eviction_failed, append,
  enforce_capacity, count_evicted, page, visit, visit_page, iter_pending,
}
use isales_telephony.EventBuffer.Runs.{
  Call, open_call, append_call, delete_call, run, IsStored, all_unevicted, run-IsStored,
}
use isales_telephony.EventBuffer.Snapshot.{decoded, list_pending, list_pending-decoded}

abbrev row : ℕ → ℕ → Row ℕ
row seq payload = record { seq = seq; payload = payload }

abbrev table : List (Row ℕ)
table = row 3 10 ∷ row 4 13 ∷ row 6 11 ∷ []

abbrev full : Buffer ℕ
full = record { capacity = 3; is_open = true; rows = table; last_seq = 6; evicted_rows = 0 }

abbrev parse : ℕ → Option ℕ
parse p = if p == 13 then none else some p

full-IsStored : IsStored 0 full
full-IsStored = omega arith

append_runs : append sound 12 full ≡ (
  ok 7,
  record full { rows = row 4 13 ∷ row 6 11 ∷ row 7 12 ∷ []; last_seq = 7; evicted_rows = 1 },
)
unfolding append enforce_capacity count_evicted
append_runs = refl

list_pending_runs : list_pending parse 4 table ≡ some ((table, (3, 10) ∷ (6, 11) ∷ []), none)
unfolding list_pending iter_pending page visit_page visit
list_pending_runs = refl

-- the second SELECT raises
read_fails_runs :
    iter_pending parse (λ (s : List (Row ℕ)). s) (λ seq m s. s) (λ after. after == 5) 3 2 0 table
    ≡ some (table, some read_failed)
unfolding iter_pending page visit_page visit
read_fails_runs = refl

abbrev calls : List (Call ℕ)
calls =
    append_call eviction_raises 12
    ∷ delete_call false 3
    ∷ open_call true
    ∷ append_call insert_raises 9
    ∷ []

unevicted_runs :
    append eviction_raises 12 full
    ≡ (err eviction_failed, record full { rows = table ++ row 7 12 ∷ []; last_seq = 7 })
unfolding append
unevicted_runs = refl

run-IsStored_example : IsStored (0 + all_unevicted calls) (run full calls)
run-IsStored_example = run-IsStored 0 full calls full-IsStored

list_pending-decoded_example :
    list_pending parse 4 table ≡ some ((table, decoded parse table), none)
list_pending-decoded_example = list_pending-decoded parse 4 table (omega arith) (omega arith)
