-- ===== src/Broadcast/Reach.antt =====
-- The monitor's life as steps, and what holds in every state that it reaches.
use danalock_ble_ha_integrat.Prelude.{
  ℕ, String, Bool, Option, none, some, List, [], true, false, ◌≡◌, refl, inl, inr, arith, string_eq,
  sym, ◌∙◌,
}
use danalock_ble_ha_integrat.Prelude.Dict.{
  Dict, keys, lookup, insert, AllValues, AllValues-insert, AllValues-map_values, AllValues-tabulate,
  AllValues-lookup,
}
use danalock_ble_ha_integrat.Pydanalock.{DeviceKey, LockSettings, ServiceInfo}
use danalock_ble_ha_integrat.DeviceState.{apply_settings}
use danalock_ble_ha_integrat.Broadcast.{
  Device, Monitor, Parser, new_device, new_monitor, start, stop, handle_advertisement,
  refresh_states, check_stale, refresh_device, check_stale_device, sync_availability,
}
use danalock_ble_ha_integrat.Broadcast.Availability.{
  IsLogged, accept_device-IsLogged, refresh_device-IsLogged, check_stale_device-IsLogged,
}
use danalock_ble_ha_integrat.Broadcast.Dispatch.{handle_advertisement-devices}

-- What other parts write into a device: listeners, the optimistic lock state, verified settings.
pub data Write (d d' : Device) : Type 0 where
  listeners : (ls : List ℕ) → d' ≡ record d { listeners = ls } → Write d d'
  pending :
      (locked : Bool)
      → d' ≡ record d { state = record (d.state) { pending_locked = some locked } }
      → Write d d'
  settings :
      (values : LockSettings) → d' ≡ record d { state = apply_settings values d.state } → Write d d'

-- A handler of the monitor runs: an advertisement is dispatched while the callback is registered,
-- with whatever keys the shared dict holds then; a timer fires while it is armed.
pub data Step (parse_broadcast : Parser) (m m' : Monitor) : Type 0 where
  advertised :
      (ks : Dict String DeviceKey) (info : ServiceInfo) (now : ℕ)
      → m.callback_registered ≡ true
      → handle_advertisement parse_broadcast ks info now m ≡ some m'
      → Step parse_broadcast m m'
  polled :
      (history : String → Option ServiceInfo) (now : ℕ)
      → m.refresh_timer ≡ true
      → m' ≡ refresh_states history now m
      → Step parse_broadcast m m'
  checked : (now : ℕ) → m.stale_timer ≡ true → m' ≡ check_stale now m → Step parse_broadcast m m'
  started : (registered : Bool) (now : ℕ) → m' ≡ start registered now m → Step parse_broadcast m m'
  stopped : m' ≡ stop m → Step parse_broadcast m m'
  written :
      (serial : String) (d d' : Device)
      → lookup serial m.devices ≡ some d
      → Write d d'
      → m' ≡ record m { devices = insert serial d' m.devices }
      → Step parse_broadcast m m'

pub data Reach (parse_broadcast : Parser) (m : Monitor) : Monitor → Type 0 where
  here : Reach parse_broadcast m m
  next :
      {t u : Monitor}
      → Reach parse_broadcast m t
      → Step parse_broadcast t u
      → Reach parse_broadcast m u

-- No info message, and nothing heard.
abbrev pub IsSilent : Device → Type 0
IsSilent d = (d.logged ≡ []) × (d.state.last_seen ≡ none) × (d.state.address ≡ none)

pub record IsSound (m : Monitor) : Type 0 where
  pub logs : AllValues IsLogged m.devices
  pub unregistered : m.started_at ≡ none → m.callback_registered ≡ false
  pub silent : m.started_at ≡ none → AllValues IsSilent m.devices

new_device-IsLogged : (serial : String) → IsLogged (new_device serial)
unfolding new_device
new_device-IsLogged serial = tt

new_device-IsSilent : (serial : String) → IsSilent (new_device serial)
unfolding new_device
new_device-IsSilent serial = (refl, refl, refl)

pub new_monitor-IsSound : (ks : Dict String DeviceKey) → IsSound (new_monitor ks)
unfolding new_monitor
new_monitor-IsSound ks = record {
  logs = AllValues-tabulate IsLogged new_device (keys ks) new_device-IsLogged;
  unregistered = λ _. refl;
  silent = λ _. AllValues-tabulate IsSilent new_device (keys ks) new_device-IsSilent;
}

Write-IsLogged : (d d' : Device) → Write d d' → IsLogged d → IsLogged d'
unfolding apply_settings
Write-IsLogged d d' (listeners ls e) h = rw e h
Write-IsLogged d d' (pending locked e) h = rw e h
Write-IsLogged d d' (settings values e) h = rw e h

Write-IsSilent : (d d' : Device) → Write d d' → IsSilent d → IsSilent d'
unfolding apply_settings
Write-IsSilent d d' (listeners ls e) h = rw e h
Write-IsSilent d d' (pending locked e) h = rw e h
Write-IsSilent d d' (settings values e) h = rw e h

refresh_device-IsSilent :
    (history : String → Option ServiceInfo) (begun : Option ℕ) (now : ℕ) (d : Device)
    → IsSilent d
    → IsSilent (refresh_device history begun now d)
unfolding refresh_device
refresh_device-IsSilent history begun now d h = rw (h.2, refresh_device) h

check_stale_device-IsSilent :
    (now : ℕ) (d : Device) → IsSilent d → IsSilent (check_stale_device none now d)
unfolding check_stale_device sync_availability
check_stale_device-IsSilent now d h = ground arith

module _ (parse_broadcast : Parser) where
  handle_advertisement-logs :
      (ks : Dict String DeviceKey) (info : ServiceInfo) (now : ℕ) (m m' : Monitor)
      → handle_advertisement parse_broadcast ks info now m ≡ some m'
      → AllValues IsLogged m.devices
      → AllValues IsLogged m'.devices
  handle_advertisement-logs ks info now m m' h a =
      elim (handle_advertisement-devices parse_broadcast ks info now m m' h).0 [
        | inl same ↦ rw same a
        | inr (report, d, found, done) ↦ rw done (
            AllValues-insert IsLogged report.serial _ m.devices
              (accept_device-IsLogged m.started_at now report info d
                (AllValues-lookup IsLogged report.serial m.devices a found))
              a)
      ]

  Step-IsSound : (m m' : Monitor) → Step parse_broadcast m m' → IsSound m → IsSound m'
  unfolding refresh_states check_stale start stop
  Step-IsSound m m' (advertised ks info now registered h) s =
      let same = (handle_advertisement-devices parse_broadcast ks info now m m' h).1 in
      let never : m'.started_at ≡ none → ⊥ = λ e. cc (s.unregistered (sym same ∙ e), registered) in
      record {
        logs = handle_advertisement-logs ks info now m m' h s.logs;
        unregistered = λ e. absurd (never e);
        silent = λ e. absurd (never e);
      }
  Step-IsSound m m' (polled history now armed e) s = rw e (record {
    logs =
        AllValues-map_values IsLogged _ m.devices
          (λ _ d h. refresh_device-IsLogged history m.started_at now d h) s.logs;
    unregistered = s.unregistered;
    silent = λ n.
        AllValues-map_values IsSilent _ m.devices
          (λ _ d h. refresh_device-IsSilent history m.started_at now d h) (s.silent n);
  })
  Step-IsSound m m' (checked now armed e) s = rw e (record {
    logs =
        AllValues-map_values IsLogged _ m.devices
          (λ _ d h. check_stale_device-IsLogged m.started_at now d h) s.logs;
    unregistered = s.unregistered;
    silent = λ n.
        AllValues-map_values IsSilent _ m.devices
          (λ _ d h. rw n (check_stale_device-IsSilent now d h)) (s.silent n);
  })
  Step-IsSound m m' (started true now e) s =
      rw e (record { logs = s.logs; unregistered = λ n. cc; silent = λ n. cc })
  Step-IsSound m m' (started false now e) s =
      rw e (record { logs = s.logs; unregistered = s.unregistered; silent = s.silent })
  Step-IsSound m m' (stopped e) s =
      rw e (record { logs = s.logs; unregistered = λ _. refl; silent = s.silent })
  Step-IsSound m m' (written serial d d' found w e) s = rw e (record {
    logs =
        AllValues-insert IsLogged serial d' m.devices
          (Write-IsLogged d d' w (AllValues-lookup IsLogged serial m.devices s.logs found)) s.logs;
    unregistered = s.unregistered;
    silent = λ n.
        AllValues-insert IsSilent serial d' m.devices
          (Write-IsSilent d d' w (AllValues-lookup IsSilent serial m.devices (s.silent n) found))
          (s.silent n);
  })

  Reach-IsSound : (m m' : Monitor) → Reach parse_broadcast m m' → IsSound m → IsSound m'
  Reach-IsSound m m' here s = s
  Reach-IsSound m m' (next {t = t} r st) s = Step-IsSound t m' st (Reach-IsSound m t r s)

-- However advertisements, polls, stale checks, starts, stops and writes of the entities follow one
-- another: in every state that a new monitor reaches, the info messages of each device take turns,
-- offline first, and its flag says which was the last.
pub Reach-IsLogged :
    (parse_broadcast : Parser) (ks : Dict String DeviceKey) (m : Monitor) (serial : String)
    {d : Device}
    → Reach parse_broadcast (new_monitor ks) m
    → lookup serial m.devices ≡ some d
    → IsLogged d
Reach-IsLogged parse_broadcast ks m serial r found =
    AllValues-lookup IsLogged serial m.devices
      (Reach-IsSound parse_broadcast (new_monitor ks) m r (new_monitor-IsSound ks)).logs found

-- As long as no start of the monitor could register with Bluetooth, no device logs anything.
pub Reach-IsSilent :
    (parse_broadcast : Parser) (ks : Dict String DeviceKey) (m : Monitor) (serial : String)
    {d : Device}
    → Reach parse_broadcast (new_monitor ks) m
    → m.started_at ≡ none
    → lookup serial m.devices ≡ some d
    → IsSilent d
Reach-IsSilent parse_broadcast ks m serial r never found =
    AllValues-lookup IsSilent serial m.devices
      ((Reach-IsSound parse_broadcast (new_monitor ks) m r (new_monitor-IsSound ks)).silent never)
      found
