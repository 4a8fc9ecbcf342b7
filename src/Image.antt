-- ===== src/Image.antt =====
-- The background image of i3lock.c: `read_raw_image` with its readers, and `verify_png_image`. Memory
-- and files are lists of bytes. `sscanf`, cairo and the allocator belong to the environment: their results
-- are arguments.
pub mod Count
use Prim.Native.Nat.{bit_or}
use i3lock.Prelude.{
  ℕ, zero, suc, ◌+◌, ◌-◌, ◌*◌, ◌/◌, ◌%◌, ◌^◌, List, [], ◌∷◌, ◌++◌, Bool, true, false, not, ◌&&◌,
  ◌||◌, Option, none, some, leb, ltb, ◌==◌, if◌then◌else◌, length, take, drop, replicate,
}
use i3lock.Memory.{byte_at}

-- `struct raw_pixel_format`
pub record PixelFormat : Type 0 where
  pub bpp : ℕ
  pub red : ℕ
  pub green : ℕ
  pub blue : ℕ

abbrev pub raw_fmt_rgb : PixelFormat
raw_fmt_rgb = record { bpp = 3; red = 0; green = 1; blue = 2 }

abbrev pub raw_fmt_rgbx : PixelFormat
raw_fmt_rgbx = record { bpp = 4; red = 0; green = 1; blue = 2 }

abbrev pub raw_fmt_xrgb : PixelFormat
raw_fmt_xrgb = record { bpp = 4; red = 1; green = 2; blue = 3 }

abbrev pub raw_fmt_bgr : PixelFormat
raw_fmt_bgr = record { bpp = 3; red = 2; green = 1; blue = 0 }

abbrev pub raw_fmt_bgrx : PixelFormat
raw_fmt_bgrx = record { bpp = 4; red = 2; green = 1; blue = 0 }

abbrev pub raw_fmt_xbgr : PixelFormat
raw_fmt_xbgr = record { bpp = 4; red = 3; green = 2; blue = 1 }

-- `strcmp(s, t) == 0`
unfoldable pub same_text : List ℕ → List ℕ → Bool
same_text [] [] = true
same_text (a ∷ s) (b ∷ t) = a == b && same_text s t
same_text _ _ = false

-- A product of `size_t`.
abbrev pub size_product : ℕ → ℕ → ℕ
size_product a b = (a * b) % 2 ^ 64

abbrev pub write_at : List ℕ → ℕ → List ℕ → List ℕ
write_at dest offset bytes = take offset dest ++ (bytes ++ drop (offset + length bytes) dest)

-- The loop over the rows, with `left` rows to go from row `y` on: the bytes read and the memory behind it.
-- A row of the memory has `4 * pixstride` bytes.
unfoldable pub read_native_rows : ℕ → List ℕ → List ℕ → ℕ → ℕ → ℕ → ℕ × List ℕ
read_native_rows zero dest src row pixstride y = (0, dest)
read_native_rows (suc left) dest src row pixstride y =
    let chunk = take row src in
    let dest' = write_at dest (4 * (y * pixstride)) chunk in
    let rest = read_native_rows left dest' (drop row src) row pixstride (suc y) in
    if ltb (length chunk) row then (length chunk, dest') else (length chunk + rest.0, rest.1)

unfoldable pub read_raw_image_native : List ℕ → List ℕ → ℕ → ℕ → ℕ → ℕ × List ℕ
unfolding read_native_rows
read_raw_image_native dest src width height pixstride =
    read_native_rows height dest src (size_product width 4) pixstride 0

-- `buf[idx + red] << 16 | buf[idx + green] << 8 | buf[idx + blue]`
unfoldable pub pixel : PixelFormat → List ℕ → ℕ → ℕ
pixel fmt buf x =
    bit_or (byte_at buf (x * fmt.bpp + fmt.red) * 2 ^ 16) (
      bit_or (byte_at buf (x * fmt.bpp + fmt.green) * 2 ^ 8) (byte_at buf (x * fmt.bpp + fmt.blue)))

-- The environment: the bytes of a `uint32_t` in memory.
module _ (bytes_of_word : ℕ → List ℕ) where
  -- The inner loop, with `left` pixels to go from `x` on, stores at the word `at`.
  unfoldable pub store_pixels : ℕ → PixelFormat → List ℕ → List ℕ → ℕ → ℕ → List ℕ
  unfolding pixel
  store_pixels zero fmt buf dest at x = dest
  store_pixels (suc left) fmt buf dest at x =
      store_pixels left fmt buf (write_at dest (4 * (at + x)) (bytes_of_word (pixel fmt buf x))) at
        (suc x)

  unfoldable pub read_fmt_rows : ℕ → PixelFormat → List ℕ → List ℕ → ℕ → ℕ → ℕ → ℕ → ℕ × List ℕ
  unfolding store_pixels
  read_fmt_rows zero fmt dest src row width pixstride y = (0, dest)
  read_fmt_rows (suc left) fmt dest src row width pixstride y =
      let buf = take row src in
      let dest' = store_pixels width fmt buf dest (y * pixstride) 0 in
      let rest = read_fmt_rows left fmt dest' (drop row src) row width pixstride (suc y) in
      if ltb (length buf) row then (length buf, dest) else (length buf + rest.0, rest.1)

  -- `none` is -1.
  unfoldable pub read_raw_image_fmt :
      Bool → List ℕ → List ℕ → ℕ → ℕ → ℕ → PixelFormat → Option ℕ × List ℕ
  unfolding read_fmt_rows
  read_raw_image_fmt malloc_ok dest src width height pixstride fmt =
      if malloc_ok
      then (let r =
            read_fmt_rows height fmt dest src (size_product width fmt.bpp) width pixstride 0 in
          (some r.0, r.1))
      else (none, dest)

  -- The format by its name, tried in the order of the source.
  unfoldable pub find_format : List ℕ → Option PixelFormat
  unfolding same_text
  find_format pixfmt =
      if same_text pixfmt (b'r' ∷ b'g' ∷ b'b' ∷ [])
      then some raw_fmt_rgb
      else if same_text pixfmt (b'r' ∷ b'g' ∷ b'b' ∷ b'x' ∷ [])
      then some raw_fmt_rgbx
      else if same_text pixfmt (b'x' ∷ b'r' ∷ b'g' ∷ b'b' ∷ [])
      then some raw_fmt_xrgb
      else if same_text pixfmt (b'b' ∷ b'g' ∷ b'r' ∷ [])
      then some raw_fmt_bgr
      else if same_text pixfmt (b'b' ∷ b'g' ∷ b'r' ∷ b'x' ∷ [])
      then some raw_fmt_bgrx
      else if same_text pixfmt (b'x' ∷ b'b' ∷ b'g' ∷ b'r' ∷ [])
      then some raw_fmt_xbgr
      else none

  -- `count < size`, with `size` converted to a signed number.
  unfoldable pub is_short : Option ℕ → ℕ → Bool
  is_short count size = ltb size (2 ^ 63) && elim count [ none ↦ true | some n ↦ ltb n size ]

  -- The test of a short count: the image is given up for an error only.
  unfoldable pub accept_count : Option ℕ → ℕ → Bool → List ℕ → Option (List ℕ)
  unfolding is_short
  accept_count count size ferror image =
      if is_short count size && elim count [ none ↦ true | some n ↦ ferror ]
      then none
      else some image

  -- `parsed` is what `sscanf` makes of the format; `surface` is cairo's answer to a width and a height, which are
  -- converted to `int`: the pixels' stride and the memory; `file` is the opened file's bytes. `ferror` tells that
  -- the file's end is a read error. The result is the image's memory.
  unfoldable pub read_raw_image :
      Option (ℕ × ℕ × List ℕ)
      → (ℕ → ℕ → Option (ℕ × List ℕ))
      → Option (List ℕ)
      → Bool
      → Bool
      → Option (List ℕ)
  unfolding same_text read_raw_image_native read_raw_image_fmt find_format accept_count
  read_raw_image none surface file malloc_ok ferror = none
  read_raw_image (some (w, h, pixfmt)) surface file malloc_ok ferror =
      elim (surface (w % 2 ^ 32) (h % 2 ^ 32)) [
        | none ↦ none
        | some (pixstride, dest) ↦ elim file [
          | none ↦ none
          | some src ↦
              if same_text pixfmt (b'n' ∷ b'a' ∷ b't' ∷ b'i' ∷ b'v' ∷ b'e' ∷ [])
              then (let r = read_raw_image_native dest src w h pixstride in
                  accept_count (some r.0) (size_product (size_product w h) 4) ferror r.1)
              else elim (find_format pixfmt) [
                | none ↦ none
                | some fmt ↦
                    (let r = read_raw_image_fmt malloc_ok dest src w h pixstride fmt in
                      accept_count r.0 (size_product (size_product w h) fmt.bpp) ferror r.1)
              ]
        ]
      ]

abbrev pub png_reference_header : List ℕ
png_reference_header = 137 ∷ 80 ∷ 78 ∷ 71 ∷ 13 ∷ 10 ∷ 26 ∷ 10 ∷ []

-- `image_path` is given or not, and the file is opened or not.
unfoldable pub verify_png_image : Bool → Option (List ℕ) → Bool
unfolding same_text
verify_png_image path_given file = path_given && elim file [
  | none ↦ false
  | some bytes ↦
      if not (length (take 8 bytes) == 8)
      then false
      else same_text png_reference_header (take 8 bytes)
]
