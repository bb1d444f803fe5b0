-- ===== src/TrayState.antt =====
-- isales_telephony/ui/state.py: the status that the tray shows, and the bus that publishes it.
-- Subscribers are numbers, as they are only compared. `set` and `update` publish under the lock and
-- call the subscribers after its release; here no other call of the bus runs between the two, so one
-- thread at a time uses it, and no subscriber raises, which would be logged and so could publish.
pub mod Bus
mod Samples
use isales_telephony.Base.{
  ℕ, Bool, true, false, Option, none, some, List, [], ◌∷◌, ◌++◌, map, ◌==◌, some_of, if◌then◌else◌,
  Text,
}

pub data TrayColor : Type 0 where
  green red : TrayColor

-- `CloudLinkState`
pub data CloudLinkState : Type 0 where
  connected disconnected awaiting_activation auth_rejected : CloudLinkState

-- `ModemState`
pub data ModemState : Type 0 where
  idle busy error offline : ModemState

-- `ModemSummary`
pub record ModemSummary : Type 0 where
  pub device_node : Text
  pub state : ModemState

-- `EdgeStatus`
pub record EdgeStatus : Type 0 where
  pub cloud_link : CloudLinkState
  pub modems : List ModemSummary
  pub recent_log_lines : List Text
  pub last_activation_error : Option Text

abbrev pub is_connected : CloudLinkState → Bool
is_connected connected = true
is_connected _ = false

abbrev pub is_idle : ModemState → Bool
is_idle idle = true
is_idle _ = false

-- `EdgeStatus.tray_color`
unfoldable pub tray_color : EdgeStatus → TrayColor
tray_color s =
    if is_connected s.cloud_link
    then (if some_of (λ (m : ModemSummary). is_idle m.state) s.modems then green else red)
    else red

-- `StateBus`: the snapshot and the subscribers, and the calls of the subscribers, in order
pub record StateBus : Type 0 where
  pub status : EdgeStatus
  pub subscribers : List ℕ
  pub delivered : List (ℕ × EdgeStatus)

-- `subscribe`
unfoldable pub subscribe : ℕ → StateBus → StateBus
subscribe sub b = record b { subscribers = b.subscribers ++ sub ∷ [] }

-- `list.remove`: the first equal element, if there is one
unfoldable pub remove_first : ℕ → List ℕ → List ℕ
remove_first sub [] = []
remove_first sub (s ∷ rest) =
    let later = remove_first sub rest in if s == sub then rest else s ∷ later

-- `_unsubscribe`
unfoldable pub unsubscribe : ℕ → StateBus → StateBus
unsubscribe sub b = record b { subscribers = remove_first sub b.subscribers }

-- what is done under the lock: the snapshot is replaced, and the subscribers are copied
abbrev pub publish : EdgeStatus → StateBus → List ℕ × StateBus
publish status b = (b.subscribers, record b { status = status })

-- what is done after its release: the copied subscribers are called
abbrev pub fan_out : EdgeStatus → List ℕ × StateBus → StateBus
fan_out status (subs, b) = record b { delivered = b.delivered ++ map (λ sub. (sub, status)) subs }

-- `set`
unfoldable pub set : EdgeStatus → StateBus → StateBus
set status b = fan_out status (publish status b)

-- `update`; the changes are the argument
unfoldable pub update : (EdgeStatus → EdgeStatus) → StateBus → StateBus
update changes b = fan_out (changes b.status) (publish (changes b.status) b)
