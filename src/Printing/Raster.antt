-- ===== src/Printing/Raster.antt =====
-- The raster of a label and the bytes that GDI takes, `_bgr_bottom_up` of wbcz/physical_printing.py.
use fbs_chz.Prelude.{
  ℕ, zero, suc, ◌+◌, ◌-◌, ◌*◌, ◌/◌, String, List, [], ◌∷◌, ◌++◌, ◌||◌, not, nat_eq, length,
  if◌then◌else◌,
}
use fbs_chz.Runtime.{Bytes}
use fbs_chz.Effect.{Result, ok, err}
use fbs_chz.Printing.Contracts.{PrintError, definite_pre_spool}
pub mod Sizes

pub record RasterImage : Type 0 where
  pub width : ℕ
  pub height : ℕ
  pub bpp : ℕ
  pub pixels : Bytes

-- The fields of `PhysicalLabelRaster` that printing reads.
pub record PhysicalLabelRaster : Type 0 where
  pub image : RasterImage
  pub layout_sha256 : String
  pub dpi : ℕ
  pub physical_offset_x_px : ℕ
  pub physical_offset_y_px : ℕ
  pub printable_width_px : ℕ
  pub printable_height_px : ℕ

-- `bytes[a:]` and `bytes[:n]`.
unfoldable pub skip : ℕ → Bytes → Bytes
skip zero b = b
skip (suc n) [] = []
skip (suc n) (x ∷ b) = skip n b

unfoldable pub first : ℕ → Bytes → Bytes
first zero b = []
first (suc n) [] = []
first (suc n) (x ∷ b) = x ∷ first n b

unfoldable pub zeros : ℕ → Bytes
zeros zero = []
zeros (suc n) = 0 ∷ zeros n

-- The pixels of a row, red last instead of red first.
unfoldable pub swapped : Bytes → Bytes
swapped (r ∷ g ∷ b ∷ l) = b ∷ g ∷ r ∷ swapped l
swapped l = l

-- `(row_bytes + 3) & ~3`
unfoldable pub stride_of : ℕ → ℕ
stride_of row_bytes = (row_bytes + 3) / 4 * 4

-- One row from `y`, padded.
unfoldable pub scanline : ℕ → Bytes → ℕ → Bytes
scanline row_bytes pixels y =
    swapped (first row_bytes (skip (y * row_bytes) pixels))
    ++ zeros (stride_of row_bytes - row_bytes)

-- The rows from `height - 1` down to 0, joined.
unfoldable pub scanlines : ℕ → Bytes → ℕ → Bytes
scanlines row_bytes pixels zero = []
scanlines row_bytes pixels (suc y) = scanline row_bytes pixels y ++ scanlines row_bytes pixels y

unfoldable pub bgr_bottom_up : PhysicalLabelRaster → Result PrintError (Bytes × ℕ)
bgr_bottom_up raster =
    if not (nat_eq raster.image.bpp 24)
      || not (nat_eq (length raster.image.pixels) (raster.image.width * raster.image.height * 3))
    then err (definite_pre_spool "FINAL_RASTER_INVALID")
    else ok (
      scanlines (raster.image.width * 3) raster.image.pixels raster.image.height,
      stride_of (raster.image.width * 3),
    )
