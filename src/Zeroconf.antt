-- ===== src/Zeroconf.antt =====
-- airscan-zeroconf.c: the devices that were discovered, and their findings.
pub mod Ident
pub mod Device
pub mod RoundTrip
pub mod Sets
pub mod Find
pub mod Buddies
pub mod Paired
pub mod Named
