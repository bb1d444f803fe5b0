-- ===== src/Fleet/Samples.antt =====
-- Three devices of one campaign, of which the second has a SIM card without a number.
use isales_telephony.Base.{
  ℕ, ◌+◌, ◌≡◌, refl, true, Option, none, some, List, [], ◌∷◌, ◌==◌, if◌then◌else◌,
}
use isales_telephony.UsbPorts.{add, remove, same_option}
use isales_telephony.Fleet.{
  Status, idle, Device, Joins, modify, device_heartbeat, on_event, is_known_modem, is_listed,
  flag_all, scan_devices, earlier, eligible, longest_idle, select_device,
}
use isales_telephony.Fleet.Selecting.{IsSelected, select_device-IsSelected}
use isales_telephony.Fleet.Reserving.{
  Transaction, select, heartbeat, usb_event, scan, picks, AllDistinct, picks-AllDistinct,
}

abbrev device : ℕ → Status → Option ℕ → Device
device n s called_at = record {
  id = n;
  usb_port = some n;
  status = s;
  last_seen_at = none;
  last_call_at = called_at;
}

abbrev devices : List Device
devices = device 1 idle (some 50) ∷ device 2 idle (some 90) ∷ device 3 idle (some 20) ∷ []

abbrev joins : Joins
joins = record {
  in_campaign = λ campaign id. true;
  binding = λ id. some (if id == 2 then none else some (600 + id));
}

abbrev transactions : List Transaction
transactions =
    select 9 100
    ∷ heartbeat 101 3
    ∷ usb_event 102 (add 3 (some 0x2c7c) (some 0x0125))
    ∷ scan (λ id. some true)
    ∷ select 9 103
    ∷ usb_event 104 (remove 1 none none)
    ∷ select 9 105
    ∷ []

-- the third selection is refused, as the device without a number stands before none
selections_run : picks joins transactions devices ≡ 3 ∷ 1 ∷ []
unfolding picks select_device longest_idle eligible earlier modify device_heartbeat on_event
    is_known_modem is_listed same_option scan_devices flag_all
selections_run = refl

select_device-IsSelected_example :
    IsSelected joins 9 100 devices (select_device joins 9 100 devices)
select_device-IsSelected_example = select_device-IsSelected joins 9 100 devices

picks-AllDistinct_example : AllDistinct (picks joins transactions devices)
picks-AllDistinct_example = picks-AllDistinct joins transactions devices
