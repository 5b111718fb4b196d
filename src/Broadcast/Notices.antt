-- ===== src/Broadcast/Notices.antt =====
-- Which advertisements, polls and stale checks write the entities of a device.
use danalock_ble_ha_integrat.Prelude.{ℕ, Option, some, true, false, ◌≡◌, ◌≤◌, ◌+◌, arith}
use danalock_ble_ha_integrat.Pydanalock.{BroadcastReport, ServiceInfo}
use danalock_ble_ha_integrat.Const.{broadcast_timeout}
use danalock_ble_ha_integrat.DeviceState.{is_fresh, counter_increased}
use danalock_ble_ha_integrat.Broadcast.{
  Device, sync_availability, notify, rssi_changed, is_last, accept_device, poll_device,
  check_stale_device,
}

-- A fresh device whose advertisement neither advances the counter nor changes the signal strength
-- gets no entity write.
pub accept_device_quiet :
    (started : Option ℕ) (now : ℕ) (report stored : BroadcastReport) (info : ServiceInfo)
    (d : Device)
    → d.state.report ≡ some stored
    → counter_increased stored.counter report.counter ≡ false
    → d.state.rssi ≡ some info.rssi
    → is_fresh now d.state ≡ true
    → (accept_device started now report info d).scheduled ≡ d.scheduled
unfolding accept_device sync_availability rssi_changed
accept_device_quiet started now report stored info d has stale same fresh = ground arith

-- A device that an advertisement made known is written once when it goes stale: the first stale
-- check writes its entities, and a later one, with nothing heard in between, does not.
pub check_stale_device_once :
    (started : Option ℕ) (now later : ℕ) (d : Device) (seen : ℕ)
    → d.notified ≡ true
    → d.state.last_seen ≡ some seen
    → seen + broadcast_timeout ≤ now
    → now ≤ later
    → ((check_stale_device started now d).scheduled ≡ (notify d).scheduled)
      × ((check_stale_device started later (check_stale_device started now d)).scheduled
          ≡ (check_stale_device started now d).scheduled)
unfolding check_stale_device sync_availability
check_stale_device_once started now later d seen known at stale order = ground arith

-- The flag that lets a stale check write the entities is set by an accepted advertisement only. A
-- device that went stale and was heard again through the history poll alone is fresh, and when it
-- goes stale a second time no stale check writes its entities.
pub check_stale_device_after_poll :
    (started : Option ℕ) (stale_at polled_at stale_again : ℕ) (info : ServiceInfo) (d : Device)
    (seen : ℕ)
    → d.state.last_seen ≡ some seen
    → seen + broadcast_timeout ≤ stale_at
    → is_last info d.state ≡ false
    → polled_at + broadcast_timeout ≤ stale_again
    → let polled = poll_device started polled_at info (check_stale_device started stale_at d) in
      (is_fresh polled_at polled.state ≡ true)
      × (is_fresh stale_again polled.state ≡ false)
      × ((check_stale_device started stale_again polled).scheduled ≡ polled.scheduled)
unfolding check_stale_device poll_device sync_availability
check_stale_device_after_poll started stale_at polled_at stale_again info d seen at stale new
      again =
    ground arith
