-- ===== src/Lib.antt =====
-- A model of the Home Assistant integration for Danalock Bluetooth locks, with proofs about it.
--
-- The program (custom_components/danalock_ble) keeps one state per lock from the lock's Bluetooth
-- advertisements, sends commands over a Bluetooth session that a cloud key opens, and keeps these
-- keys fresh. Its parts and the files that model them:
--
--   Const            const.py: the constants that the modelled code reads, option_refresh_hours
--   DeviceState      broadcast.py: DanalockDeviceState, _counter_increased, _update_setting_values
--   Broadcast        broadcast.py: DanalockBroadcastMonitor. The dicts for states, listeners,
--                    _notified and _unavailable have the same keys, so they are one dict of `Device`
--   KeyManager       keymanager.py: DanalockKeyManager, with set_key and disconnect of control.py,
--                    which it calls
--   Control          control.py: DanalockControl; Control/Messages has the texts for the user
--   LockEntity       lock.py: DanalockLockEntity; LockEntity/Register has the register of the latest
--                    report that the device state is compared with, LockEntity/Monitored the events of a
--                    whole monitor
--   Version          update.py: _version_tuple, version_is_newer, _versions_equal
--   Firmware         update.py: the values of DanalockFirmwareUpdateEntity and _async_refresh;
--                    Firmware/Cycles has _async_cycle, async_update and the timer,
--                    Firmware/Service the whole async_update and the check action, Firmware/Rounds
--                    what each round of that action does
--   KeyManager/Timer keymanager.py: start, stop, _schedule_next, _run_cycle
--   Timers           the attribute of a pending timer, and the timers that the event loop holds for it
--   Select           select.py: the labels of the presets, DanalockSettingSelectEntity; Select/Shared
--                    has _async_ensure_settings_read
--   Sensors          sensor.py, binary_sensor.py, button.py: the values, _rssi_to_percent, async_press
--   Entities         entity.py: DanalockEntity with its listener; sensor.py: DanalockKeyValidUntilSensor
--   Platforms        async_setup_entry of lock.py, sensor.py, binary_sensor.py, button.py, select.py and
--                    update.py: the entities of an entry, with their ids of entity.py
--   Storage          storage.py: DanalockTokenStorage, with the tasks that save and clear start
--   Entry            __init__.py: DanalockRuntimeData, _pop_pending_tokens, _device_name, _device_model,
--                    _is_supported_device, _register_devices
--   Entry/Setup      __init__.py: async_setup, new_cloud_client, async_setup_entry, _async_update_listener
--   Entry/Unload     __init__.py: async_unload_entry, async_remove_entry
--   Entry/Handlers   the handlers of all parts that run on the store of a loaded entry
--   Entry/Lifecycle  the setup, the unload, these handlers and the key refresh as steps
--   ConfigFlow       config_flow.py: DanalockConfigFlow, stage_pending_tokens; ConfigFlow/Username has
--                    normalized_username, ConfigFlow/Options DanalockOptionsFlow
--   Coverage         scripts/check_module_coverage.py
--   Pydanalock       the records of the libraries that the code reads
--   Outside          the calls that leave the code, as parameters, and the store that the parts share
--   Prelude          lists, dicts, exceptions, and the rules for handlers that raise
--   Tests            concrete data, and the theorems at this data
--
-- How they interact. The monitor writes the device states; a control reads the address from them, the
-- lock entity reads them and writes the optimistic lock state into them. A control asks the key
-- manager for a refresh, the key manager puts the fetched key into the shared dict and pushes it into
-- the control of the serial. So `Runtime` of Outside holds the one store: the keys, the bound
-- controls with their facades' tokens, the monitor, the listeners, and the log of the calls that went
-- out, newest first. A handler is a function from the store to a result and a new store: a raise keeps
-- the changes that were made before it, as in Python. `catch` and `try_finally` are the try statement.
--
-- The setup of an entry fetches the keys, fills that store and starts the monitor and the key manager;
-- the unload stops them. `Entry` of Entry is the store with the timer of the key manager, the runtime
-- data, the tokens, and the cloud clients that are open. The login flow has a client of its own and
-- hands its token to the setup through the stage of the tokens, `staged` in both.
--
-- What is not code of the repository is a parameter: the payload decoder, the cloud client, the
-- facade of a lock with its operations, the Bluetooth lookup and connect, and normalize_serial; for
-- the setup also the device registry and the platforms (`Surroundings`), for the login flow the flow
-- manager (`Login`). They work on a state of their own, `World`. What a theorem needs of them stands as
-- its hypothesis.
--
-- Of Home Assistant the model relies on this: the store of the tokens does the calls it is given one
-- after the other in their order, and async_update_reload_and_abort writes the entry and then
-- schedules its reload.
--
-- Timers. A handler that awaits in the midst of a timer's cycle is two functions, the part before and
-- the part behind the await, and a step relation lets all else happen between them. A random delay is
-- a function that the cycle is given; its bound is a hypothesis.
--
-- Bounds and conventions. Times are natural numbers in milliseconds; a handler reads the clock once.
-- Handlers run one after the other: outside the cycles of the timers and the shared settings read a
-- handler that awaits is not interleaved with another one, as the locks of the key manager and of the
-- facade make it for one serial. A command writes the device state at its end only, so what the monitor
-- hears meanwhile stands before the event `succeeded` of LockEntity/Monitored. Counters are numbers, and the theorems on the counter test bound
-- them to 16 bits. int() is modelled for ASCII text, and so are strip() and lower(). The digits of a
-- hexadecimal status are written on fuel: the number plus one, which is enough as each digit divides
-- it by 16. All other loops are structural recursion on lists. A dict is an association list in the
-- order of insertion, as Python keeps it.
--
-- Not modelled: the logger beside the availability messages, the texts of raised errors that Home
-- Assistant does not show, the parser of the script's command line, the display names and classes of the entities.
pub mod Prelude
pub mod Pydanalock
pub mod Const
pub mod DeviceState
pub mod Broadcast
pub mod Outside
pub mod Timers
pub mod KeyManager
pub mod Control
pub mod LockEntity
pub mod Select
pub mod Sensors
pub mod Storage
pub mod Entities
pub mod Entry
pub mod Platforms
pub mod ConfigFlow
pub mod Coverage
pub mod Version
pub mod Firmware
mod Tests
