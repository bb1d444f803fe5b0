-- ===== src/Drivers/Identity.antt =====
-- What drivers.py asks of a modem: which driver it needs, its signal, its ICCID and its IMEI. What
-- `send` of a command did is the argument: the lines of the response, or an exception.
use isales_telephony.Base.{
  ℕ, Bool, Option, none, some, List, [], ◌∷◌, ◌++◌, map, ◌&&◌, leb, ◌==◌, ◌+◌, if◌then◌else◌,
  Outcome, ok, err, Text, codes, text_eq, contains, prefix_of, strip, is_blank,
}

-- the commands that `A7670Driver` sends, in their order: `init`, `dial`, `hangup`
abbrev pub init_commands : List Text
init_commands = codes "ATE0" ∷ codes "AT+CMEE=1" ∷ codes "AT+CLIP=1" ∷ []

abbrev pub dial_commands : Text → List Text
dial_commands phone = (codes "ATD" ++ (phone ++ codes ";")) ∷ []

abbrev pub hangup_commands : List Text
hangup_commands = codes "ATH" ∷ []

-- the classes in `_DRIVERS`
pub data Driver : Type 0 where
  a7670 sim800c quectel_uc20 : Driver

-- one character of s.lower(), for ASCII
abbrev to_lower : ℕ → ℕ
to_lower c = if leb 65 c && leb c 90 then c + 32 else c

-- `get_driver`
unfoldable pub get_driver : Text → Driver
get_driver name =
    let lower = map to_lower name in
    if text_eq lower (codes "sim800c")
    then sim800c
    else if text_eq lower (codes "quectel_uc20")
    then quectel_uc20
    else a7670

-- " ".join(lines)
abbrev spaced : List Text → Text
spaced [] = []
spaced (l ∷ []) = l
spaced (l ∷ k ∷ more) = l ++ (32 ∷ spaced (k ∷ more))

-- the driver for what `AT+GMI` and `AT+GMM` answer
unfoldable pub driver_for : List Text → Driver
driver_for lines =
    let blob = map to_lower (spaced lines) in
    let simcom = contains (codes "simcom") blob in
    if simcom && contains (codes "a7670") blob
    then a7670
    else if simcom && contains (codes "800") blob
    then sim800c
    else if contains (codes "quectel") blob
    then quectel_uc20
    else a7670

abbrev detected : Outcome Text (List Text) → Outcome Text (List Text) → Driver
detected (err e) model = a7670
detected (ok manuf) (err e) = a7670
detected (ok manuf) (ok model) = driver_for (manuf ++ model)

-- `detect_driver`
unfoldable pub detect_driver : Outcome Text (List Text) → Outcome Text (List Text) → Text → Driver
detect_driver manuf model hint = if is_blank hint then detected manuf model else get_driver hint

-- what is behind the first `c` of the text, if there is one
abbrev pub behind : ℕ → Text → Option Text
behind c [] = none
behind c (a ∷ s) = let rest = behind c s in if a == c then some s else rest

-- what is before the first `c` of the text, or all of it
abbrev pub before : ℕ → Text → Text
before c [] = []
before c (a ∷ s) = let rest = before c s in if a == c then [] else a ∷ rest

abbrev pub or_all : Text → Option Text → Text
or_all s none = s
or_all s (some t) = t

abbrev or_next : {N : Type 0} → N → Option N → N
or_next next none = next
or_next next (some n) = n

-- `int`, where the text is a number, is a parameter, and so is `is_space` of `strip`.
module _ (is_space : ℕ → Bool) where
  module _ {N : Type 0} (int_of : Text → Option N) (unknown : N) where
    abbrev rssi : Option Text → Option N
    rssi none = none
    rssi (some payload) = int_of (strip is_space (before 44 payload))

    -- `_parse_csq`; the default of 99 is `unknown`
    unfoldable pub parse_csq : List Text → N
    parse_csq [] = unknown
    parse_csq (line ∷ lines) =
        let next = parse_csq lines in
        if prefix_of (codes "+CSQ") line then or_next next (rssi (behind 58 line)) else next

  -- `_strip_prefix`; its loop returns at the first line
  unfoldable pub strip_prefix : Text → List Text → Text
  strip_prefix prefix [] = []
  strip_prefix prefix (line ∷ lines) =
      if prefix_of prefix line
      then strip (λ c. c == 34) (strip is_space (or_all line (behind 58 line)))
      else strip is_space line

  -- `iccid` of the response to `AT+CCID`
  unfoldable pub iccid : List Text → Text
  iccid lines = strip_prefix (codes "+CCID") lines

  abbrev first_line : List Text → Text
  first_line [] = []
  first_line (line ∷ lines) = line

  -- `imei` of the response to `AT+CGSN`
  unfoldable pub imei : List Text → Text
  imei lines =
      if prefix_of (codes "+CGSN") (first_line lines)
      then strip_prefix (codes "+CGSN") lines
      else first_line lines
