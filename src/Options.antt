-- ===== src/Options.antt =====
-- airscan-devops.c: the options of a device. A failed assertion, a NULL dereference and a read behind an
-- array are `none`.
pub mod Data
pub mod Choose
pub mod Single
pub mod Handlers
pub mod Nearest
pub mod Modes
pub mod Valid
pub mod Kept
pub mod Reloads
pub mod Consistent
pub mod Defaults
pub mod Runs
pub mod Get
pub mod Exact
pub mod Scans
pub mod Stale
