-- ===== src/Http.antt =====
-- airscan-http.c: the parts that work on texts alone. A text is the list of its bytes, without the zero
-- that ends it in C.
pub mod Header
pub mod Lookup
pub mod Pieces
pub mod Params
pub mod Settles
pub mod Quoting
pub mod Path
pub mod Shrinks
pub mod Segments
pub mod Resolve
