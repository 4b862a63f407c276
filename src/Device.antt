-- ===== src/Device.antt =====
-- airscan-device.c: the scan state machine and the calls of a client.
pub mod Types
pub mod Job
pub mod Geom
pub mod Image
pub mod Stm
pub mod Client
pub mod Read
pub mod Events
