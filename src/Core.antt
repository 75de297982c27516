-- ===== src/Core.antt =====
-- include/core and src/core: the devices and the table that finds them by MAC address.
pub mod Device
pub mod HashMap
pub mod DeviceBuffer
pub mod Registry
