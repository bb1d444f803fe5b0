-- ===== src/GrpcClient/Backoff.antt =====
-- `_connect_loop` of grpc_client.py: how long it sleeps between two attempts.
use Prim.Native.Nat.pow
use native.Mathlib.Nat.{pow-suc}
use isales_telephony.Base.{
  Option, leb→le, Bool-cases, inl, inr, leb, ℕ, zero, suc, ◌*◌, ◌^◌, ◌≤◌, ◌<◌, ◌≡◌, refl, Bool,
  true, false, List, [], ◌∷◌, arith, min, All, replicate, if◌then◌else◌, ok,
}
use isales_telephony.EventBuffer.{Buffer}
use isales_telephony.GrpcClient.{Config, Client, new}

-- How `_run_one_stream` ends.
pub data Ending : Type 0 where
  closed_by_server rpc_error unexpected_error cancelled : Ending

pub record Attempt : Type 0 where
  pub ending : Ending
  pub stop_set : Bool

-- What the loop does after an attempt: it ends, or sleeps and goes on with a new backoff.
pub data Next : Type 0 where
  returns : Next
  sleeps : ℕ → ℕ → Next

module _ (c : Config) where
  abbrev after_ending : Bool → ℕ → Next
  after_ending stop_set backoff =
      if stop_set
      then returns
      else sleeps (min backoff c.max_backoff) (min (backoff * c.backoff_factor) c.max_backoff)

  -- one turn of the loop, from the backoff it starts with
  unfoldable pub turn : Attempt → ℕ → Next
  turn a backoff = elim a.ending [
    | closed_by_server ↦ after_ending a.stop_set c.initial_backoff
    | rpc_error ↦ after_ending a.stop_set backoff
    | unexpected_error ↦ after_ending a.stop_set backoff
    | cancelled ↦ returns
  ]

  abbrev go_on : (ℕ → List ℕ) → Next → List ℕ
  go_on rest returns = []
  go_on rest (sleeps s backoff) = s ∷ rest backoff

  -- the sleeps of the loop over the attempts that it comes to make
  unfoldable pub loop_from : List Attempt → ℕ → List ℕ
  loop_from [] backoff = []
  loop_from (a ∷ rest) backoff = go_on (loop_from rest) (turn a backoff)

  unfoldable pub connect_loop : List Attempt → List ℕ
  connect_loop attempts = loop_from attempts c.initial_backoff

abbrev InRange : Config → ℕ → Type 0
InRange c s = (c.initial_backoff ≤ s) × (s ≤ c.max_backoff)

abbrev NextInRange : Config → Next → Type 0
NextInRange c returns = Unit
NextInRange c (sleeps s backoff) = InRange c s × InRange c backoff

grown_bounds :
    (c : Config) (backoff : ℕ)
    → 1 < c.backoff_factor
    → InRange c backoff
    → InRange c (min (backoff * c.backoff_factor) c.max_backoff)
grown_bounds c backoff f h =
    let grows : backoff * 1 ≤ backoff * c.backoff_factor = grind arith in (omega arith, omega arith)

after_ending_bounds :
    (c : Config) (stop_set : Bool) (backoff : ℕ)
    → 1 < c.backoff_factor
    → InRange c backoff
    → NextInRange c (after_ending c stop_set backoff)
after_ending_bounds c true backoff f h = tt
after_ending_bounds c false backoff f h = ((omega arith, omega arith), grown_bounds c backoff f h)

turn_bounds :
    (c : Config) (ending : Ending) (stop_set : Bool) (backoff : ℕ)
    → 1 < c.backoff_factor
    → InRange c c.initial_backoff
    → InRange c backoff
    → NextInRange c (turn c (record { ending = ending; stop_set = stop_set }) backoff)
unfolding turn
turn_bounds c closed_by_server stop_set backoff f i h =
    after_ending_bounds c stop_set c.initial_backoff f i
turn_bounds c rpc_error stop_set backoff f i h = after_ending_bounds c stop_set backoff f h
turn_bounds c unexpected_error stop_set backoff f i h = after_ending_bounds c stop_set backoff f h
turn_bounds c cancelled stop_set backoff f i h = tt

go_on_bounds :
    (c : Config) (rest : ℕ → List ℕ) (n : Next)
    → ((b : ℕ) → InRange c b → All (InRange c) (rest b))
    → NextInRange c n
    → All (InRange c) (go_on c rest n)
go_on_bounds c rest returns ih h = tt
go_on_bounds c rest (sleeps s b) ih h = (h.0, ih b h.1)

loop_from_bounds :
    (c : Config) (attempts : List Attempt) (backoff : ℕ)
    → 1 < c.backoff_factor
    → InRange c c.initial_backoff
    → InRange c backoff
    → All (InRange c) (loop_from c attempts backoff)
unfolding loop_from
loop_from_bounds c [] backoff f i h = tt
loop_from_bounds c (a ∷ rest) backoff f i h =
    go_on_bounds c (loop_from c rest) (turn c a backoff) (λ b hb. loop_from_bounds c rest b f i hb)
      (turn_bounds c a.ending a.stop_set backoff f i h)

-- What the checks of `__init__` leave of a configuration.
pub record IsAccepted (c : Config) : Type 0 where
  pub positive : 0 < c.initial_backoff
  pub ordered : c.initial_backoff ≤ c.max_backoff
  pub grows : 1 < c.backoff_factor
  pub some_room : 0 < c.memory_buffer_limit

pub new-IsAccepted :
    {P M : Type 0} (c : Config) (b : Option (Buffer P)) {k : Client P M}
    → new c b ≡ ok k
    → IsAccepted c × (k.config ≡ c)
unfolding new
new-IsAccepted c b h = ground arith

-- With a configuration that the constructor accepts, however the attempts end: no sleep of the
-- connect loop is shorter than the initial backoff or longer than the maximal one.
pub connect_loop_bounds :
    {P M : Type 0} (c : Config) (b : Option (Buffer P)) {k : Client P M} (attempts : List Attempt)
    → new c b ≡ ok k
    → All (λ s. (c.initial_backoff ≤ s) × (s ≤ c.max_backoff)) (connect_loop c attempts)
unfolding connect_loop
connect_loop_bounds c b attempts h =
    let (ok_c, _) = new-IsAccepted c b h in
    loop_from_bounds c attempts c.initial_backoff ok_c.grows (omega arith) (omega arith)

abbrev pub failure : Attempt
failure = record { ending = rpc_error; stop_set = false }

-- min (initial * factor ^ k) max for k = from, from + 1, …
unfoldable pub exponential : Config → ℕ → ℕ → List ℕ
exponential c zero k = []
exponential c (suc n) k =
    min (c.initial_backoff * c.backoff_factor ^ k) c.max_backoff ∷ exponential c n (suc k)

capped_again : (x f m : ℕ) → 0 < f → min (min x m * f) m ≡ min (x * f) m
capped_again x f m h = elim (Bool-cases (leb x m)) [
  | inl below ↦ let same : min x m ≡ x = omega (arith, leb→le x m below) in rw same
  | inr above ↦
      let over : m ≤ x = ground arith in
      let cut : min x m ≡ m = omega arith in
      let grown : m * 1 ≤ m * f = grind arith in
      let grown' : m * f ≤ x * f = grind arith in rw cut (omega arith)
]

failing_from :
    (c : Config) (n k : ℕ)
    → IsAccepted c
    → loop_from c
        (replicate n failure)
        (min (c.initial_backoff * c.backoff_factor ^ k) c.max_backoff)
      ≡ exponential c n k
unfolding loop_from turn exponential
failing_from c zero k h = refl
failing_from c (suc n) k h =
    let x = c.initial_backoff * c.backoff_factor ^ k in
    let once : min (min x c.max_backoff) c.max_backoff ≡ min x c.max_backoff = omega arith in
    let f_pos : 0 < c.backoff_factor = omega (arith, h.grows) in
    let next : x * c.backoff_factor ≡ c.initial_backoff * c.backoff_factor ^ suc k =
      rw pow-suc (omega arith) in
    rw (once, capped_again x c.backoff_factor c.max_backoff f_pos, next, failing_from c n (suc k) h)

-- While attempts fail, the k-th sleep (from 0) is initial * factor ^ k, cut at the maximum.
failing_sleeps :
    (c : Config) (n : ℕ) → IsAccepted c → connect_loop c (replicate n failure) ≡ exponential c n 0
unfolding connect_loop
failing_sleeps c n h =
    let first : min (c.initial_backoff * c.backoff_factor ^ 0) c.max_backoff ≡ c.initial_backoff =
      rw pow.zero (omega (arith, h.ordered)) in
    rw first at (failing_from c n 0 h)
