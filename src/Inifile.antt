-- ===== src/Inifile.antt =====
-- airscan-inifile.c: the reader of configuration files. A file is what is left of its bytes, and a
-- text is the list of its bytes. The counts of mem_len stand as the lengths of the lists.
pub mod File
pub mod Scan
pub mod Record
pub mod Turns
pub mod Ends
pub mod Offsets
pub mod Tokens
pub mod Match
pub mod Blank
pub mod Writing
pub mod Quoted
