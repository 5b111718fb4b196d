-- ===== src/Broadcast/Gate.antt =====
-- What an accepted advertisement changes: the report behind its counter gate, and the signal data.
use danalock_ble_ha_integrat.Prelude.{ℕ, Option, none, some, true, false, ◌≡◌, ◌⊎◌, arith}
use danalock_ble_ha_integrat.Pydanalock.{BroadcastReport, ServiceInfo}
use danalock_ble_ha_integrat.DeviceState.{counter_increased, update_setting_values}
use danalock_ble_ha_integrat.Broadcast.{Device, accept_device, sync_availability}

-- A report that does not advance the counter leaves the stored report, the optimistic lock state
-- and the setting values; its signal strength, time and address are stored all the same.
pub accept_device_replay :
    (started : Option ℕ) (now : ℕ) (report stored : BroadcastReport) (info : ServiceInfo)
    (d : Device)
    → d.state.report ≡ some stored
    → counter_increased stored.counter report.counter ≡ false
    → let s = (accept_device started now report info d).state in
      (s.report ≡ d.state.report)
      × (s.pending_locked ≡ d.state.pending_locked)
      × (s.setting_values ≡ d.state.setting_values)
      × (s.rssi ≡ some info.rssi)
      × (s.last_seen ≡ some now)
      × (s.address ≡ some info.address)
unfolding accept_device sync_availability
accept_device_replay started now report stored info d has stale = ground arith

-- A first report, and one that advances the counter, is stored, ends the optimistic lock state, and
-- moves the setting values by the flags that changed against the old report.
pub accept_device_advance :
    (started : Option ℕ) (now : ℕ) (report : BroadcastReport) (info : ServiceInfo) (d : Device)
    → (d.state.report ≡ none)
      ⊎ ((stored : BroadcastReport) × (d.state.report ≡ some stored)
          × (counter_increased stored.counter report.counter ≡ true))
    → let s = (accept_device started now report info d).state in
      (s.report ≡ some report)
      × (s.pending_locked ≡ none)
      × (s.setting_values ≡ (update_setting_values d.state report).setting_values)
      × (s.rssi ≡ some info.rssi)
      × (s.last_seen ≡ some now)
      × (s.address ≡ some info.address)
unfolding accept_device sync_availability
accept_device_advance started now report info d h = ground arith
