-- ===== src/EventBuffer.antt =====
-- isales_telephony/transport/sqlite_buffer.py: the durable queue of frames for the cloud.
-- The table is the list of its rows in the order of the integer primary key, the order in which
-- SQLite stores and selects them; `last_seq` is the AUTOINCREMENT counter. The file outlives the
-- connection, so `rows` and `last_seq` stay over `close`. A flag says where SQLite raises.
pub mod Invariant
pub mod Runs
pub mod Paging
pub mod Snapshot
mod Samples
use isales_telephony.Base.{
  ℕ, zero, suc, ◌+◌, ◌-◌, Bool, true, false, Option, none, some, List, [], ◌∷◌, ◌++◌, Outcome, ok,
  err, ltb, leb, ◌==◌, length, take, drop, keep, not, if◌then◌else◌,
}

pub record Row (P : Type 0) : Type 0 where
  pub seq : ℕ
  pub payload : P

pub data BufferError : Type 0 where
  value_error not_opened open_failed append_failed eviction_failed read_failed : BufferError
  delete_failed clear_failed : BufferError

-- Where SQLite raises in `append`: nowhere, in the INSERT, or behind it, as it is committed, in
-- `_enforce_capacity_locked`.
pub data Fault : Type 0 where
  sound insert_raises eviction_raises : Fault

pub record Buffer (P : Type 0) : Type 0 where
  pub capacity : ℕ
  pub is_open : Bool
  pub rows : List (Row P)
  pub last_seq : ℕ
  pub evicted_rows : ℕ

module _ {P : Type 0} where
  -- `__init__` over the file that `rows` and `last_seq` describe
  unfoldable pub new : ℕ → List (Row P) → ℕ → Outcome BufferError (Buffer P)
  new capacity rows last_seq =
      if capacity == 0
      then err value_error
      else ok (record {
        capacity = capacity;
        is_open = false;
        rows = rows;
        last_seq = last_seq;
        evicted_rows = 0;
      })

  -- a second `open` does nothing
  unfoldable pub open_ : Bool → Buffer P → Outcome BufferError (Buffer P)
  open_ fails b =
      if b.is_open
      then ok b
      else if fails
      then err open_failed
      else ok (record b { is_open = true })

  unfoldable pub close : Buffer P → Buffer P
  close b = record b { is_open = false }

  -- `_enforce_capacity_locked`: the number of rows evicted, and the table without them
  unfoldable pub enforce_capacity : Buffer P → ℕ × Buffer P
  enforce_capacity b =
      let count = length b.rows in
      if leb count b.capacity
      then (0, b)
      else let excess = count - b.capacity in (excess, record b { rows = drop excess b.rows })

  pub count_evicted : ℕ × Buffer P → Buffer P
  count_evicted (evicted, b) = record b { evicted_rows = b.evicted_rows + evicted }

  abbrev pub inserted : P → Buffer P → Buffer P
  inserted payload b = record b {
    rows = b.rows ++ record { seq = b.last_seq + 1; payload = payload } ∷ [];
    last_seq = b.last_seq + 1;
  }

  abbrev pub append_open : Fault → P → Buffer P → Outcome BufferError ℕ × Buffer P
  append_open insert_raises payload b = (err append_failed, b)
  append_open eviction_raises payload b = (err eviction_failed, inserted payload b)
  append_open sound payload b =
      (ok (b.last_seq + 1), count_evicted (enforce_capacity (inserted payload b)))

  -- `append` of a serialised frame: its seq or what it raises, and the buffer
  unfoldable pub append : Fault → P → Buffer P → Outcome BufferError ℕ × Buffer P
  append fault payload b =
      if not b.is_open then (err not_opened, b) else append_open fault payload b

  unfoldable pub len : Buffer P → Outcome BufferError ℕ
  len b = if b.is_open then ok (length b.rows) else err not_opened

  -- the rows that `DELETE … WHERE seq <= ?` leaves
  unfoldable pub without_through : ℕ → List (Row P) → List (Row P)
  without_through seq rows = keep (λ (r : Row P). ltb seq r.seq) rows

  unfoldable pub delete_through : Bool → ℕ → Buffer P → Outcome BufferError (ℕ × Buffer P)
  delete_through fails seq b =
      if not b.is_open
      then err not_opened
      else if fails
      then err delete_failed
      else let left = without_through seq b.rows in
        ok (length b.rows - length left, record b { rows = left })

  unfoldable pub clear : Bool → Buffer P → Outcome BufferError (ℕ × Buffer P)
  clear fails b =
      if not b.is_open
      then err not_opened
      else if fails
      then err clear_failed
      else ok (length b.rows, record b { rows = [] })

  -- one `SELECT … WHERE seq > last ORDER BY seq LIMIT size`; `after` is `last + 1`, 0 at first
  unfoldable pub page : ℕ → ℕ → List (Row P) → List (Row P)
  page size after rows = take size (keep (λ (r : Row P). leb after r.seq) rows)

abbrev pub page_size : ℕ
page_size = 256

-- `iter_pending` with the body of the loop that consumes it. `S` is the state of that loop, in which
-- `rows_of` finds the table: the body may change it between two rows.
module _ {P M S : Type 0} (parse : P → Option M) (rows_of : S → List (Row P))
    (body : ℕ → M → S → S) where
  abbrev pub yielded : ℕ → Option M → S → S
  yielded seq none s = s
  yielded seq (some m) s = body seq m s

  -- a row that does not parse is skipped
  unfoldable pub visit : Row P → S → S
  visit r s = yielded r.seq (parse r.payload) s

  -- the `for` over one page: the new `after` and state
  unfoldable pub visit_page : List (Row P) → ℕ → S → ℕ × S
  visit_page [] after s = (after, s)
  visit_page (r ∷ rs) after s = visit_page rs (r.seq + 1) (visit r s)

  -- the page of a SELECT, or what it raises
  abbrev pub select : Bool → List (Row P) → Outcome BufferError (List (Row P))
  select true rows = err read_failed
  select false rows = ok rows

  -- the end of a turn of `while True`: no rows or an exception end it, otherwise it goes on behind
  -- the page
  abbrev turn :
      (ℕ → S → Option (S × Option BufferError))
      → Outcome BufferError (List (Row P))
      → ℕ
      → S
      → Option (S × Option BufferError)
  turn again (err e) after s = some (s, some e)
  turn again (ok []) after s = some (s, none)
  turn again (ok (r ∷ rs)) after s =
      let (after', s') = visit_page (r ∷ rs) after s in again after' s'

  -- the `while True`: the state at its end and what it raises; `none` when the fuel runs out. The
  -- flag says of each SELECT, by its `after`, that it raises.
  unfoldable pub iter_pending : (ℕ → Bool) → ℕ → ℕ → ℕ → S → Option (S × Option BufferError)
  iter_pending fails zero size after s = none
  iter_pending fails (suc fuel) size after s =
      turn (iter_pending fails fuel size) (select (fails after) (page size after (rows_of s))) after
        s

-- no SELECT raises
abbrev pub reads_sound : ℕ → Bool
reads_sound after = false
