-- ===== src/Id.antt =====
-- airscan-id.c: the tables of names and the lookups in them. An identifier is its number, -1 for the
-- UNKNOWN of each kind. A table is its array; a loop that runs off the array's end gives `none`.
pub mod Lookup
use sane_airscan.Base.{
  Bool, true, false, not, ◌&&◌, Option, none, some, List, [], ◌∷◌, ◌==◌, if◌then◌else◌,
}
use sane_airscan.Base.Int.{ℤ, pos, negsuc, eqb_ℤ}
use sane_airscan.Uuid.{Text, to_lower}

-- id_name_table: an entry by whether its name is NULL.
pub data Entry : Type 0 where
  entry : ℤ → Text → Entry
  last_entry : ℤ → Entry

-- The name, or `some none` for NULL.
unfoldable pub id_name : ℤ → List Entry → Option (Option Text)
id_name id [] = none
id_name id (last_entry _ ∷ table) = some none
id_name id (entry i name ∷ table) =
    let rest = id_name id table in if eqb_ℤ i id then some (some name) else rest

-- `!strcasecmp(a, b)`.
unfoldable pub same_name : Text → Text → Bool
same_name [] [] = true
same_name (a ∷ ar) (b ∷ br) = to_lower a == to_lower b && same_name ar br
same_name _ _ = false

unfoldable pub id_by_name : Text → List Entry → Option ℤ
id_by_name name [] = none
id_by_name name (last_entry _ ∷ table) = some (negsuc 0)
id_by_name name (entry i n ∷ table) =
    let rest = id_by_name name table in if same_name name n then some i else rest

abbrev pub id_proto_name_table : List Entry
id_proto_name_table =
    entry (pos 0) (b'e' ∷ b'S' ∷ b'C' ∷ b'L' ∷ [])
    ∷ entry (pos 1) (b'W' ∷ b'S' ∷ b'D' ∷ [])
    ∷ last_entry (negsuc 0)
    ∷ []

abbrev adf : Text
adf = b'A' ∷ b'D' ∷ b'F' ∷ []

abbrev pub id_source_sane_name_table : List Entry
id_source_sane_name_table =
    entry (pos 0) (b'F' ∷ b'l' ∷ b'a' ∷ b't' ∷ b'b' ∷ b'e' ∷ b'd' ∷ [])
    ∷ entry (pos 1) adf
    ∷ entry (pos 2) (b'A' ∷ b'D' ∷ b'F' ∷ b' ' ∷ b'D' ∷ b'u' ∷ b'p' ∷ b'l' ∷ b'e' ∷ b'x' ∷ [])
    ∷ last_entry (negsuc 0)
    ∷ []

-- The names are those of the headers of SANE, of which the lookups need that they differ.
abbrev pub id_colormode_sane_name_table : Text → Text → Text → List Entry
id_colormode_sane_name_table halftone gray color =
    entry (pos 2) halftone ∷ entry (pos 1) gray ∷ entry (pos 0) color ∷ last_entry (negsuc 0) ∷ []

abbrev image : Text → Text
image rest = b'i' ∷ b'm' ∷ b'a' ∷ b'g' ∷ b'e' ∷ b'/' ∷ rest

abbrev application : Text → Text
application rest =
    b'a' ∷ b'p' ∷ b'p' ∷ b'l' ∷ b'i' ∷ b'c' ∷ b'a' ∷ b't' ∷ b'i' ∷ b'o' ∷ b'n' ∷ b'/' ∷ rest

abbrev pub id_format_mime_name_table : List Entry
id_format_mime_name_table =
    entry (pos 0) (image (b'j' ∷ b'p' ∷ b'e' ∷ b'g' ∷ []))
    ∷ entry (pos 1) (image (b't' ∷ b'i' ∷ b'f' ∷ b'f' ∷ []))
    ∷ entry (pos 2) (image (b'p' ∷ b'n' ∷ b'g' ∷ []))
    ∷ entry (pos 3) (application (b'p' ∷ b'd' ∷ b'f' ∷ []))
    ∷ entry (pos 4) (application (b'b' ∷ b'm' ∷ b'p' ∷ []))
    ∷ last_entry (negsuc 0)
    ∷ []

abbrev pub id_justification_sane_name_table : List Entry
id_justification_sane_name_table =
    entry (pos 0) (b'l' ∷ b'e' ∷ b'f' ∷ b't' ∷ [])
    ∷ entry (pos 1) (b'c' ∷ b'e' ∷ b'n' ∷ b't' ∷ b'e' ∷ b'r' ∷ [])
    ∷ entry (pos 2) (b'r' ∷ b'i' ∷ b'g' ∷ b'h' ∷ b't' ∷ [])
    ∷ entry (pos 3) (b't' ∷ b'o' ∷ b'p' ∷ [])
    ∷ entry (pos 4) (b'b' ∷ b'o' ∷ b't' ∷ b't' ∷ b'o' ∷ b'm' ∷ [])
    ∷ []

abbrev pub id_proto_name : ℤ → Option (Option Text)
id_proto_name id = id_name id id_proto_name_table

abbrev pub id_proto_by_name : Text → Option ℤ
id_proto_by_name name = id_by_name name id_proto_name_table

abbrev pub id_source_sane_name : ℤ → Option (Option Text)
id_source_sane_name id = id_name id id_source_sane_name_table

abbrev pub id_source_by_sane_name : Text → Option ℤ
id_source_by_sane_name name = id_by_name name id_source_sane_name_table

abbrev pub id_colormode_sane_name : Text → Text → Text → ℤ → Option (Option Text)
id_colormode_sane_name halftone gray color id =
    id_name id (id_colormode_sane_name_table halftone gray color)

abbrev pub id_colormode_by_sane_name : Text → Text → Text → Text → Option ℤ
id_colormode_by_sane_name halftone gray color name =
    id_by_name name (id_colormode_sane_name_table halftone gray color)

abbrev pub id_format_mime_name : ℤ → Option (Option Text)
id_format_mime_name id = id_name id id_format_mime_name_table

abbrev pub id_format_by_mime_name : Text → Option ℤ
id_format_by_mime_name name = id_by_name name id_format_mime_name_table

abbrev pub id_justification_sane_name : ℤ → Option (Option Text)
id_justification_sane_name id = id_name id id_justification_sane_name_table

-- `strchr(s, '/') + 1`; `none` where there is no slash.
after_slash : Text → Option Text
after_slash [] = none
after_slash (c ∷ s) = if c == b'/' then some s else after_slash s

-- `none` for NULL, in either of the options.
unfoldable pub id_format_short_name : ℤ → Option (Option Text)
unfolding after_slash id_name
id_format_short_name id = elim (id_format_mime_name id) [
  | none ↦ none
  | some none ↦ some none
  | some (some mime) ↦ some (after_slash mime)
]
