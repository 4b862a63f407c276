-- ===== src/Tests/Http.antt =====
-- Texts of HTTP at concrete inputs.
use sane_airscan.Base.{◌≡◌, refl, none, some, List, [], ◌∷◌, ◌++◌, if◌then◌else◌, map}
use sane_airscan.Uuid.{Text}
use sane_airscan.Id.{same_name}
use sane_airscan.Http.Header.{HttpHdrField, http_hdr_get, http_hdr_set, http_hdr_del}
use sane_airscan.Http.Lookup.{IsUnique, header_map}
use sane_airscan.Http.Pieces.{Pieces}
use sane_airscan.Http.Params.{http_hdr_params_parse, parsed, null_written}
use sane_airscan.Http.Settles.{nameless_crashes}
use sane_airscan.Http.Quoting.{Param, field_of, write_params, parse-write}
use sane_airscan.Http.Path.{http_uri_remove_dot_segments}
use sane_airscan.Http.Segments.{path_of, resolve}
use sane_airscan.Http.Resolve.{dot_segments-resolve}

-- `Host`, `HOST` and `Date`.
abbrev host : Text
host = b'H' ∷ b'o' ∷ b's' ∷ b't' ∷ []

abbrev host_upper : Text
host_upper = b'H' ∷ b'O' ∷ b'S' ∷ b'T' ∷ []

abbrev date : Text
date = b'D' ∷ b'a' ∷ b't' ∷ b'e' ∷ []

abbrev header : List HttpHdrField
header =
    record { name = host; value = some (b'x' ∷ []) } ∷ record { name = date; value = none } ∷ []

header-IsUnique : IsUnique header
unfolding http_hdr_get sane_airscan.Http.Header.http_hdr_lookup same_name
header-IsUnique = (refl, (refl, tt))

header_map_example :
    IsUnique (http_hdr_set header host_upper (b'y' ∷ []))
    × IsUnique (http_hdr_del header host_upper)
    × (http_hdr_get (http_hdr_set header host_upper (b'y' ∷ [])) host
        ≡ (if same_name host_upper host then some (b'y' ∷ []) else http_hdr_get header host))
    × (http_hdr_get (http_hdr_del header host_upper) host
        ≡ (if same_name host_upper host then none else http_hdr_get header host))
header_map_example = header_map header host_upper (b'y' ∷ []) host header-IsUnique

abbrev pieces : Pieces
pieces = record {
  name = b'D' ∷ b'a' ∷ [];
  more_name = (b't' ∷ []) ∷ (b'e' ∷ []) ∷ [];
  value = b'1' ∷ [];
  more_value = (b'2' ∷ []) ∷ [];
}

nameless_crashes_example :
    http_hdr_params_parse []
      ((b'a' ∷ b'/' ∷ b'b' ∷ []) ++ b';' ∷ ((32 ∷ []) ++ b'=' ∷ ([] ++ b'x' ∷ [])))
    ≡ some null_written
nameless_crashes_example =
    nameless_crashes [] (b'a' ∷ b'/' ∷ b'b' ∷ []) (32 ∷ []) [] b'x' [] refl refl refl refl

abbrev params : List Param
params =
    record { name = b'a' ∷ []; value = b'x' ∷ 34 ∷ b';' ∷ [] }
    ∷ record { name = b'b' ∷ b'c' ∷ []; value = [] }
    ∷ []

parse-write_example :
    http_hdr_params_parse [] ((b'm' ∷ []) ++ write_params params)
    ≡ some (parsed ([] ++ map field_of params))
parse-write_example = parse-write [] (b'm' ∷ []) params refl refl

abbrev up : Text
up = b'/' ∷ b'a' ∷ b'/' ∷ b'.' ∷ b'.' ∷ []

-- The segments of `/a/./b/..`.
abbrev segments : List Text
segments = (b'a' ∷ []) ∷ (b'.' ∷ []) ∷ (b'b' ∷ []) ∷ (b'.' ∷ b'.' ∷ []) ∷ []

dot_segments-resolve_example :
    http_uri_remove_dot_segments (path_of segments) ≡ some (path_of (resolve [] segments))
dot_segments-resolve_example = dot_segments-resolve segments refl
