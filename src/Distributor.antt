-- ===== src/Distributor.antt =====
-- `PowerLimitDistributor` of src/pv_inverter_proxy/distributor.py. The source computes with floats; here
-- power is in milliwatts (rated power in watts), a limit in tenths of a percent, which is what the
-- source rounds to, and time in milliseconds of the monotonic clock. A call takes no time: it reads the
-- clock once. The plugins' answers are inputs, and their calls are recorded.
pub mod Device
pub mod Waterfall
pub mod Slack
pub mod Commands
pub mod Distribute
pub mod Poll
mod Tests
