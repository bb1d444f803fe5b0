-- ===== src/AtClient/Opening.antt =====
-- The opening of the modem's port in at_client.py, with the lock of platforms/serial_lock.py, and
-- the commands that switch the modem's audio on and off. What the operating system and the modem
-- answer is the argument; a step is a call that is awaited.
use isales_telephony.Base.{
  ℕ, ◌≡◌, refl, sym, ap, arith, Bool, true, false, Option, none, some, List, [], ◌∷◌, ◌&&◌, not,
  if◌then◌else◌, Outcome, ok, err, Text, codes, if-cases, prefix_of, strip, text_eq,
}
use isales_telephony.Drivers.Identity.{behind, before}

-- Why the port could not be opened: `PermissionError`, raised or as a cause, or a message that says
-- that access is denied; or anything else.
pub data OpenError : Type 0 where
  access_denied not_opened : OpenError

pub data Flock : Type 0 where
  taken blocking os_error : Flock

-- What is left of an attempt: the open port, the lock on it, the reader task of `AtClient`.
pub record Tty : Type 0 where
  pub port_open : Bool
  pub locked : Bool
  pub reader_task : Bool

abbrev pub released : Tty
released = record { port_open = false; locked = false; reader_task = false }

pub data Created : Type 0 where
  client : Option ℕ → Created
  busy_device runtime_error lock_os_error init_error reader_error cancelled : Created

-- How the detection of the driver and its `init` end: a CancelledError is no `Exception`.
pub data Init : Type 0 where
  init_ok init_raises init_cancelled : Init

-- The reader task, when they have ended: it reads on, has seen the end of its input, or has raised.
pub data Reading : Type 0 where
  reading_on at_eof reader_raised : Reading

-- The platform is Windows or not; the error of the opening, or none; the descriptor, if the port has
-- one; the answer of `flock`; the end of the initialisation, and the reader task then.
pub record Answers : Type 0 where
  pub windows : Bool
  pub opening : Option OpenError
  pub fd : Option ℕ
  pub flock : Flock
  pub init : Init
  pub reader : Reading

-- `translate_open_error`: is it a busy device?
unfoldable pub translate_open_error : Bool → OpenError → Bool
translate_open_error windows access_denied = windows
translate_open_error windows not_opened = false

abbrev flocked : Option ℕ → Flock → Outcome Created (Option ℕ)
flocked none flock = err runtime_error
flocked (some fd) taken = ok (some fd)
flocked (some fd) blocking = err busy_device
flocked (some fd) os_error = err lock_os_error

-- `acquire_exclusive`
unfoldable pub acquire_exclusive : Bool → Option ℕ → Flock → Outcome Created (Option ℕ)
acquire_exclusive windows fd flock = if windows then ok none else flocked fd flock

-- `release`
unfoldable pub release : Bool → Option ℕ → Tty → Tty
release windows none t = t
release windows (some fd) t = if windows then t else record t { locked = false }

-- `AtClient.aclose`, and whether it raises: what the reader task has raised is raised again, and the
-- port stays open
unfoldable pub at_aclose : Reading → Tty → Tty × Bool
at_aclose reader_raised t = (record t { reader_task = false }, true)
at_aclose reading_on t = (record t { port_open = false; reader_task = false }, false)
at_aclose at_eof t = (record t { port_open = false; reader_task = false }, false)

-- the client, or the end of an initialisation that has raised
abbrev pub cleaned : Bool → Option ℕ → Tty × Bool → Tty × Created
cleaned windows handle (t, true) = (t, reader_error)
cleaned windows handle (t, false) = (release windows handle t, init_error)

abbrev is_lock : Option ℕ → Bool
is_lock none = false
is_lock (some fd) = true

abbrev pub is_reading : Reading → Bool
is_reading reading_on = true
is_reading at_eof = false
is_reading reader_raised = false

abbrev started : Option ℕ → Reading → Tty
started handle reader = record {
  port_open = true;
  locked = is_lock handle;
  reader_task = is_reading reader;
}

-- the initialisation by its end: `except Exception` cleans up, and a cancellation passes it by
unfoldable pub initialised : Init → Bool → Option ℕ → Reading → Tty × Created
initialised init_ok windows handle reader = (started handle reader, client handle)
initialised init_raises windows handle reader =
    cleaned windows handle (at_aclose reader (started handle reader))
initialised init_cancelled windows handle reader = (started handle reader, cancelled)

-- `except (BusyDeviceError, RuntimeError)` closes the port; another error of the lock passes
abbrev pub locked_as : Answers → Outcome Created (Option ℕ) → Tty × Created
locked_as a (ok handle) = initialised a.init a.windows handle a.reader
locked_as a (err lock_os_error) = (record released { port_open = true }, lock_os_error)
locked_as a (err e) = (released, e)

abbrev pub opened : Answers → Option OpenError → Tty × Created
opened a (some e) =
    (released, if translate_open_error a.windows e then busy_device else runtime_error)
opened a none = locked_as a (acquire_exclusive a.windows a.fd a.flock)

-- `SerialATClient.create_from_tty`
unfoldable pub create_from_tty : Answers → Tty × Created
create_from_tty a = opened a a.opening

-- What an answer of `create_from_tty` promises of the port, the lock and the reader.
abbrev pub Leaves : Bool → Reading → Created → Tty → Type 0
Leaves windows reader (client handle) t =
    t ≡ record { port_open = true; locked = not windows; reader_task = is_reading reader }
Leaves windows reader cancelled t =
    t ≡ record { port_open = true; locked = not windows; reader_task = is_reading reader }
Leaves windows reader lock_os_error t = t ≡ record released { port_open = true }
Leaves windows reader reader_error t =
    t ≡ record { port_open = true; locked = not windows; reader_task = false }
Leaves windows reader _ t = t ≡ released

abbrev Ends : Bool → Reading → Tty × Created → Type 0
Ends windows reader r = Leaves windows reader (r.1) (r.0)

closed-Ends :
    (reader : Reading) (w : Bool) (handle : Option ℕ) (t : Tty)
    → is_lock handle ≡ not w
    → t ≡ record { port_open = false; locked = is_lock handle; reader_task = false }
    → Ends w reader (cleaned w handle (t, false))
unfolding release
closed-Ends reader w none t q e = e
closed-Ends reader true (some fd) t q e = absurd (ground (arith, q))
closed-Ends reader false (some fd) t q e = rw e refl

initialised-Ends :
    (init : Init) (w : Bool) (handle : Option ℕ) (reader : Reading)
    → is_lock handle ≡ not w
    → Ends w reader (initialised init w handle reader)
unfolding initialised at_aclose
initialised-Ends init_ok w handle reader q =
    ap (λ b. record { port_open = true; locked = b; reader_task = is_reading reader }) q
initialised-Ends init_cancelled w handle reader q =
    ap (λ b. record { port_open = true; locked = b; reader_task = is_reading reader }) q
initialised-Ends init_raises w handle reader_raised q =
    ap (λ b. record { port_open = true; locked = b; reader_task = false }) q
initialised-Ends init_raises w handle reading_on q = closed-Ends reading_on w handle _ q refl
initialised-Ends init_raises w handle at_eof q = closed-Ends at_eof w handle _ q refl

flocked-Ends :
    (a : Answers) (fd : Option ℕ) (flock : Flock)
    → a.windows ≡ false
    → Ends a.windows a.reader (locked_as a (flocked fd flock))
flocked-Ends a none flock o = refl
flocked-Ends a (some fd) taken o =
    initialised-Ends a.init a.windows (some fd) a.reader (ap not (sym o))
flocked-Ends a (some fd) blocking o = refl
flocked-Ends a (some fd) os_error o = refl

opened-Ends :
    (a : Answers) (opening : Option OpenError) → Ends a.windows a.reader (opened a opening)
unfolding acquire_exclusive
opened-Ends a (some e) =
    if-cases (λ c. Leaves a.windows a.reader c released) (translate_open_error a.windows e)
      (λ _. refl) (λ _. refl)
opened-Ends a none =
    if-cases (λ r. Ends a.windows a.reader (locked_as a r)) a.windows
      (λ o. initialised-Ends a.init a.windows none a.reader (ap not (sym o)))
      (λ o. flocked-Ends a a.fd a.flock o)

-- Whatever the operating system and the modem answer, and where the task is cancelled, if at all,
-- during the detection and the initialisation: a client is given with its port open, locked save on
-- Windows, and its reader running unless that has ended. Any exception leaves no port, no lock and no
-- reader, but for three: an error of `flock` other than its being taken leaves the port open; where
-- the initialisation fails and the reader task has raised, the port stays open and locked; and a
-- cancellation leaves port, lock and reader as for a client.
pub create_from_tty-Leaves :
    (a : Answers) → Leaves a.windows a.reader (create_from_tty a).1 (create_from_tty a).0
unfolding create_from_tty
create_from_tty-Leaves a = opened-Ends a a.opening

-- the commands of `cpcmreg_enable` and whether it raises `PcmEnableError`, where `AtError` is raised
-- for the first, the reset and the second try or not
unfoldable pub cpcmreg_enable : Bool → Bool → Bool → List Text × Bool
cpcmreg_enable false reset second = (codes "AT+CPCMREG=1" ∷ [], false)
cpcmreg_enable true reset second =
    (codes "AT+CPCMREG=1" ∷ codes "AT+CPCMREG=0" ∷ codes "AT+CPCMREG=1" ∷ [], second)

-- p.strip() of the third of payload.split(",")
abbrev third : (ℕ → Bool) → Option Text → Option Text
third is_space none = none
third is_space (some s) = some (strip is_space (before 44 s))

abbrev behind_comma : Option Text → Option Text
behind_comma none = none
behind_comma (some s) = behind 44 s

abbrev is_zero : Option Text → Bool
is_zero none = false
is_zero (some s) = text_eq s (codes "0")

-- `_clcc_has_active_call`
unfoldable pub clcc_has_active_call : (ℕ → Bool) → List Text → Bool
clcc_has_active_call is_space [] = false
clcc_has_active_call is_space (line ∷ lines) =
    let later = clcc_has_active_call is_space lines in
    let state = third is_space (behind_comma (behind_comma (behind 58 line))) in
    if prefix_of (codes "+CLCC") line && is_zero state then true else later
