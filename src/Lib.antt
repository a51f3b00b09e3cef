-- ===== src/Lib.antt =====
-- A model of the parts of pv-inverter-proxy (src/pv_inverter_proxy) that decide: the Modbus write path
-- of Venus OS with its control state, the connection manager of a device, the register cache and
-- layout, the files that survive a restart, the distributor of power limits, and the update subsystem
-- with its privileged helper and the recovery at boot.
--
-- How the parts interact. Venus OS writes registers of Model 123 at the proxy (proxy.py); a write
-- passes the maintenance gate (updater/maintenance.py, raised by the updater), changes the control
-- state (control.py), is saved (control.py and state_file.py) and handed to the distributor
-- (distributor.py), which divides a limit among the devices and sends each its share. The refresh
-- loop of control.py keeps limits of the web application alive and releases them. The configuration
-- (config.py) names the devices; the registry (device_registry.py) runs a poll loop for each, which
-- drives its connection manager (connection.py) and tells the distributor the measured power. The
-- aggregation fills the cache (register_cache.py). The web application guards /api/update/
-- (updater/security.py), reads the status file (updater/status.py), looks for releases
-- (updater/scheduler.py, updater/github_client.py), and writes a trigger file (webapp.py), which
-- starts the privileged helper; it validates the trigger (updater_root/trigger_reader.py), makes the
-- update (updater_root/runner.py), waits until the new release is healthy
-- (updater_root/healthcheck.py), and reports on it (updater_root/status_writer.py). The marker that
-- an attempt leaves when the machine goes down is read at the next boot (recovery.py).
--
-- Files. Python names are kept.
--   Base and its children: the names that the others share; lists, integers and dicts over the native
--     numbers.
--   Sunspec: sunspec_models.py. Strings and Identity hold the lemmas on texts and on the Common Model.
--   Connection: ConnectionManager of connection.py; Invariant is about single polls, Traces about runs.
--   Config: config.py; Checks its lookups and validations, RoundTrip lemmas on a saved file.
--   Registry: DeviceRegistry of device_registry.py, and plugin_factory of plugins/__init__.py; Poll its poll
--     loop. Lifecycle is about starts of devices that are not managed, Leaks about all starts; Dicts,
--     Tasks, Numbered, Stopped, Poll/Counted and Poll/Late hold lemmas.
--   Deque: collections.deque with a bound, for control.py and timeseries.py.
--   StateFile: state_file.py.
--   Control: ControlState of control.py; Override its OverrideLog, Storage the methods that read and
--     write files, Refresh a round of edpc_refresh_loop; Validity, Locking and Storage/Recovery hold
--     lemmas.
--   Cache and TimeSeries: register_cache.py and timeseries.py.
--   Context: the part of AppContext (context.py) that the write path reads, and updater/maintenance.py.
--   Proxy: StalenessAwareSlaveContext of proxy.py. Dispatch, Writes, Gate, Lock and Limit are about one write,
--     Maintenance about sequences of writes, Inflight about interleaved writes and drain_inflight_modbus.
--   Json: what json.loads returns.
--   Updater: Texts, RateLimit and Csrf (updater/security.py), Status (updater/status.py), Nonces and
--     Trigger (updater_root/trigger_reader.py), Phase and Exec (updater_root/status_writer.py and the
--     control flow of an attempt), Runner (updater_root/runner.py), Health (updater_root/healthcheck.py),
--     Progress (updater/progress.py), TriggerWriter (updater/trigger.py), Config (updater/config.py with its
--     handler in webapp.py), Version (updater/version.py), Github (updater/github_client.py), Scheduler
--     (updater/scheduler.py with _on_update_available of __main__.py).
--   Releases: the retention of releases.py; Newest and Retained hold its lemmas.
--   Throttle: ThrottleCaps and compute_throttle_score of plugin.py.
--   Distributor: distributor.py. Device holds the devices and sync_devices, Waterfall the division of a
--     budget, Slack its correction by the measured power, Commands what is sent to one device,
--     Distribute the handling of a global limit, Poll the measurement of response times; their children
--     hold lemmas.
--   Aggregation: aggregation.py, the one virtual inverter that Venus OS sees.
--   Webapp: power_limit_handler and venus_lock_handler of webapp.py, and Clamp its power_clamp_handler;
--     Update the handlers that start an update or a rollback, Update/Check the one that looks for an update,
--     Inverters those that add, change and delete inverters. Their other children hold lemmas.
--   Recovery: recovery.py, and write_pending_marker of updater_root/runner.py.
--   Tests and the modules of that name: the theorems at concrete inputs.
--
-- State is a record that each operation takes and returns; an exception is a value of a result type. In
-- Updater.Exec a step goes on with a value, leaves run with an exit code, or raises.
--
-- Choices. Times are whole milliseconds, with the wall clock and the monotonic clock told apart where
-- the code does. Percentages are natural numbers, as the scale factor is 0 and registers are uint16. A
-- subtraction on natural numbers stops at 0; where Python's may be negative, a comment says why the
-- branches agree. Dicts are association lists in the order of insertion. Two functions take fuel:
-- wait_drained, whose fuel is the number of writes that end before the time is up, and the loop of the
-- health check, for which one round more than the poll intervals in the hard timeout is proved to be
-- enough. A round of the refresh loop is one pass of its endless loop.
--
-- The distributor computes with floats. Here its numbers are exact: power in milliwatts, rated power in
-- watts, the limit of a device in tenths of a percent, to which the source rounds, the global limit in
-- hundredths of a percent (the callers pass whole percentages, at which the power it allows is a whole
-- number of milliwatts), and response times as ratios. A call reads the clock once. Writes that the
-- source runs concurrently, one for each device, are done in order. The aggregation's physical values
-- are exact ratios too.
--
-- Parameters. What is not in this repository, or is I/O, is an input: what json.loads gives for a
-- file, whether a file can be written (and for a file that is opened with mode "w", whether it was
-- emptied), the check of a timestamp (strptime), the answers of git, pip, systemctl and the health
-- checker. A primitive of the update runner that raises is taken to have had no effect on the
-- symlink and the marker. Calls of pymodbus, of the distributor by the write path and the web
-- handlers, and of the plugins are recorded in lists; the plugins' answers, the devices' measured
-- power and what the health check is answered are inputs.
--
-- The configuration. Its loader checks no types, so a dataclass instance is the list of its fields with
-- YAML values, and is compared and changed by the names of the fields. The tasks of the registry
-- are numbers, with the list of those that run; a poll loop ends only when it is cancelled.
--
-- Not modelled: layout and disk check of releases, backup, the plugins' registers, MQTT and
-- discovery, the other web handlers; network and process I/O, logging, start-up, and the browser's
-- files. Cancellation of tasks and exceptions that are not derived from Exception are left out.
pub mod Base
pub mod Sunspec
pub mod Config
pub mod Connection
pub mod Registry
pub mod Deque
pub mod StateFile
pub mod Control
pub mod Cache
pub mod TimeSeries
pub mod Context
pub mod Proxy
pub mod Json
pub mod Updater
pub mod Releases
pub mod Throttle
pub mod Distributor
pub mod Recovery
pub mod Aggregation
pub mod Webapp
pub mod Tests
