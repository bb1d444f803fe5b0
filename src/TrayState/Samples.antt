-- ===== src/TrayState/Samples.antt =====
-- A small run of the state bus.
use isales_telephony.Base.{◌≡◌, refl, none, List, [], ◌∷◌, codes}
use isales_telephony.TrayState.{
  EdgeStatus, StateBus, connected, disconnected, idle, busy, green, red, tray_color,
}
use isales_telephony.TrayState.Bus.{
  Op, subscribed, unsubscribed, was_set, updated, run, received, published, times, run-received,
}

abbrev down : EdgeStatus
down = record {
  cloud_link = disconnected;
  modems = record { device_node = codes "COM3"; state = idle } ∷ [];
  recent_log_lines = [];
  last_activation_error = none;
}

abbrev up : EdgeStatus
up = record down { cloud_link = connected }

colors :
    (tray_color down ≡ red)
    × (tray_color up ≡ green)
    × (tray_color (record up { modems = record { device_node = []; state = busy } ∷ [] }) ≡ red)
unfolding tray_color
colors = (refl, refl, refl)

abbrev bus : StateBus
bus = record { status = down; subscribers = 1 ∷ 2 ∷ []; delivered = [] }

abbrev ops : List Op
ops = was_set up ∷ unsubscribed 1 ∷ updated (λ s. record s { modems = [] }) ∷ subscribed 3 ∷ []

run-received_example : received 2 (run bus ops).delivered ≡ up ∷ record up { modems = [] } ∷ []
unfolding received published times
run-received_example = run-received 2 ops bus refl (refl, (refl, tt))
