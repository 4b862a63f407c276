-- ===== src/Device/Image.antt =====
-- The detection of the format of an image in airscan-image.c, and which formats have a decoder.
use sane_airscan.Base.{
  ℕ, ◌+◌, Bool, true, false, ◌&&◌, List, [], ◌∷◌, leb, ◌==◌, if◌then◌else◌, length, drop,
}
use sane_airscan.Device.Types.{
  Format, format_unknown, format_jpeg, format_tiff, format_png, format_pdf, format_bmp, Bytes,
}

-- image_format_magic, without the length, which is that of the bytes.
pub record Magic : Type 0 where
  pub format : Format
  pub off : ℕ
  pub bytes : Bytes

abbrev pub image_format_magic_tab : List Magic
image_format_magic_tab =
    record { format = format_bmp; off = 0; bytes = b'B' ∷ b'M' ∷ [] }
    ∷ record { format = format_jpeg; off = 0; bytes = 0xff ∷ 0xd8 ∷ [] }
    ∷ record {
      format = format_png;
      off = 0;
      bytes = 0x89 ∷ b'P' ∷ b'N' ∷ b'G' ∷ 0x0d ∷ 0x0a ∷ 0x1a ∷ 0x0a ∷ [];
    }
    ∷ record { format = format_tiff; off = 0; bytes = b'I' ∷ b'I' ∷ b'*' ∷ 0 ∷ [] }
    ∷ record { format = format_tiff; off = 0; bytes = b'M' ∷ b'M' ∷ 0 ∷ b'*' ∷ [] }
    ∷ []

-- `memcmp(data, bytes, len) == 0`, where the data has the length.
unfoldable pub begins_with : Bytes → Bytes → Bool
begins_with image [] = true
begins_with [] (b ∷ bytes) = false
begins_with (d ∷ image) (b ∷ bytes) = d == b && begins_with image bytes

unfoldable pub image_format_match : Magic → Bytes → Format
unfolding begins_with
image_format_match magic image =
    if leb (magic.off + length magic.bytes) (length image)
      && begins_with (drop magic.off image) magic.bytes
    then magic.format
    else format_unknown

-- The first format that is not unknown.
abbrev pub or_format : Format → Format → Format
or_format format_unknown rest = rest
or_format format rest = format

unfoldable pub detect_in : List Magic → Bytes → Format
unfolding image_format_match
detect_in [] image = format_unknown
detect_in (magic ∷ tab) image = or_format (image_format_match magic image) (detect_in tab image)

unfoldable pub image_format_detect : Bytes → Format
unfolding detect_in
image_format_detect image = detect_in image_format_magic_tab image

-- `decoders[format] != NULL` after image_decoder_create_all. The unknown format is -1, outside of the
-- table.
abbrev pub has_decoder : Format → Bool
has_decoder format_bmp = true
has_decoder format_jpeg = true
has_decoder format_png = true
has_decoder format_tiff = true
has_decoder format_pdf = false
has_decoder format_unknown = false
