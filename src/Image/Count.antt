-- ===== src/Image/Count.antt =====
-- How much of a file the readers of raw images consume.
use i3lock.Prelude.{
  ℕ, zero, suc, ◌+◌, ◌-◌, ◌*◌, ◌≤◌, ◌≡◌, List, ltb, length, take, drop, min, length-take,
  length-drop, inl, inr, arith, Bool-cases,
}
use i3lock.Image.{size_product, write_at, read_native_rows, read_raw_image_native}

-- One row more.
row_count :
    (size left row taken rest : ℕ)
    → row ≤ size
    → taken ≡ row
    → rest ≡ min (size - row) (left * row)
    → taken + rest ≡ min size (suc left * row)
row_count size left row taken rest h t e = omega arith

native_rows_count :
    (left : ℕ) (dest src : List ℕ) (row stride y : ℕ)
    → (read_native_rows left dest src row stride y).0 ≡ min (length src) (left * row)
unfolding read_native_rows
native_rows_count zero dest src row stride y = omega arith
native_rows_count (suc left) dest src row stride y =
    let dest' = write_at dest (4 * (y * stride)) (take row src) in
    let rest = native_rows_count left dest' (drop row src) row stride (suc y) in
    let size = length-take row src in
    elim (Bool-cases (ltb (length (take row src)) row)) [
      | inl short ↦ rw (short, read_native_rows) (ground (arith, short, size))
      | inr whole ↦
          let enough : row ≤ length src = ground (arith, whole, size) in
          rw (whole, read_native_rows)
            (row_count (length src) left row (length (take row src)) _ enough (omega (arith, size))
              (rw (length-drop row src) at rest))
    ]

-- A native image takes as many bytes as there are, up to its rows' size.
pub read_raw_image_native-count :
    (dest src : List ℕ) (width height stride : ℕ)
    → (read_raw_image_native dest src width height stride).0
      ≡ min (length src) (height * size_product width 4)
unfolding read_raw_image_native
read_raw_image_native-count dest src width height stride =
    native_rows_count height dest src (size_product width 4) stride 0
