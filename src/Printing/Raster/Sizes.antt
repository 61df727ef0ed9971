-- ===== src/Printing/Raster/Sizes.antt =====
-- The size of the bytes that `_bgr_bottom_up` of wbcz/physical_printing.py hands to GDI, and the pixels
-- that are read back from them.
use fbs_chz.Prelude.{
  ℕ, zero, suc, ◌+◌, ◌-◌, ◌*◌, ◌%◌, ◌≤◌, ◌<◌, [], ◌∷◌, ◌++◌, ◌≡◌, ◌∙◌, refl, sym, ap, false, not,
  nat_eq, ◌||◌, length, length-append, arith,
}
use fbs_chz.Runtime.{Bytes}
use fbs_chz.Effect.{unless_ok, ok}
use fbs_chz.Printing.Raster.{
  PhysicalLabelRaster, skip, first, zeros, swapped, stride_of, scanline, scanlines, bgr_bottom_up,
}

length-first : (n : ℕ) (b : Bytes) → n ≤ length b → length (first n b) ≡ n
unfolding first
length-first zero b h = refl
length-first (suc n) [] h = absurd (omega (arith, h))
length-first (suc n) (x ∷ b) h = omega (arith, length-first n b (omega (arith, h)))

length-skip : (n : ℕ) (b : Bytes) → length (skip n b) ≡ length b - n
unfolding skip
length-skip zero b = omega arith
length-skip (suc n) [] = omega arith
length-skip (suc n) (x ∷ b) = omega (arith, length-skip n b)

length-zeros : (n : ℕ) → length (zeros n) ≡ n
unfolding zeros
length-zeros zero = refl
length-zeros (suc n) = omega (arith, length-zeros n)

length-swapped : (b : Bytes) → length (swapped b) ≡ length b
unfolding swapped
length-swapped [] = refl
length-swapped (x ∷ []) = refl
length-swapped (x ∷ y ∷ []) = refl
length-swapped (x ∷ y ∷ z ∷ b) = omega (arith, length-swapped b)

swapped_twice : (b : Bytes) → swapped (swapped b) ≡ b
unfolding swapped
swapped_twice [] = refl
swapped_twice (x ∷ []) = refl
swapped_twice (x ∷ y ∷ []) = refl
swapped_twice (x ∷ y ∷ z ∷ b) = rw (swapped_twice b) refl

stride-bounds : (n : ℕ) → (n ≤ stride_of n) × (stride_of n < n + 4)
unfolding stride_of
stride-bounds n = (omega arith, omega arith)

-- A row within the pixels.
row : ℕ → Bytes → ℕ → Bytes
row n pixels y = first n (skip (y * n) pixels)

length-row : (n : ℕ) (p : Bytes) (y : ℕ) → y * n + n ≤ length p → length (swapped (row n p y)) ≡ n
unfolding row
length-row n p y h = length-swapped _ ∙ length-first n _ (omega (arith, h, length-skip (y * n) p))

length-scanline :
    (n : ℕ) (p : Bytes) (y : ℕ) → y * n + n ≤ length p → length (scanline n p y) ≡ stride_of n
unfolding scanline row
length-scanline n p y h = omega (
  arith,
  length-append (swapped (row n p y)) (zeros (stride_of n - n)),
  length-row n p y h,
  length-zeros (stride_of n - n),
  (stride-bounds n).0,
)

zero_times : (n : ℕ) → zero * n ≡ 0
zero_times n = omega arith

suc_times : (y n : ℕ) → suc y * n ≡ y * n + n
suc_times y n = omega arith

below : (y n m : ℕ) → suc y * n ≤ m → (y * n + n ≤ m) × (y * n ≤ m)
below y n m h = (omega (arith, h, suc_times y n), omega (arith, h, suc_times y n))

length-scanlines :
    (n : ℕ) (p : Bytes) (y : ℕ) → y * n ≤ length p → length (scanlines n p y) ≡ y * stride_of n
unfolding scanlines
length-scanlines n p zero h = sym (zero_times (stride_of n))
length-scanlines n p (suc y) h =
    let (row_fits, rest_fits) = below y n (length p) h in
    omega (
      arith,
      length-append (scanline n p y) (scanlines n p y),
      suc_times y (stride_of n),
      length-scanline n p y row_fits,
      length-scanlines n p y rest_fits,
    )

skip-append : (m : ℕ) (a b : Bytes) → length a ≡ m → skip m (a ++ b) ≡ b
unfolding skip
skip-append zero [] b h = refl
skip-append zero (x ∷ a) b h = absurd (omega (arith, h))
skip-append (suc m) [] b h = absurd (omega (arith, h))
skip-append (suc m) (x ∷ a) b h = skip-append m a b (omega (arith, h))

first-append : (m : ℕ) (a b : Bytes) → length a ≡ m → first m (a ++ b) ≡ a
unfolding first
first-append zero [] b h = refl
first-append zero (x ∷ a) b h = absurd (omega (arith, h))
first-append (suc m) [] b h = absurd (omega (arith, h))
first-append (suc m) (x ∷ a) b h = ap (λ l. x ∷ l) (first-append m a b (omega (arith, h)))

first-append_twice : (m : ℕ) (a b c : Bytes) → length a ≡ m → first m ((a ++ b) ++ c) ≡ a
unfolding first
first-append_twice zero [] b c h = refl
first-append_twice zero (x ∷ a) b c h = absurd (omega (arith, h))
first-append_twice (suc m) [] b c h = absurd (omega (arith, h))
first-append_twice (suc m) (x ∷ a) b c h =
    ap (λ l. x ∷ l) (first-append_twice m a b c (omega (arith, h)))

zero_plus : (n : ℕ) → zero + n ≡ n
zero_plus n = omega arith

suc_plus : (m n : ℕ) → suc m + n ≡ suc (m + n)
suc_plus m n = omega arith

skip-nil : (n : ℕ) → skip n [] ≡ []
unfolding skip
skip-nil zero = refl
skip-nil (suc n) = refl

skip-add : (m n : ℕ) (b : Bytes) → skip (m + n) b ≡ skip n (skip m b)
unfolding skip
skip-add zero n b = ap (λ k. skip k b) (zero_plus n)
skip-add (suc m) n [] = skip-nil (suc m + n) ∙ sym (skip-nil n)
skip-add (suc m) n (x ∷ b) = rw (suc_plus m n) (skip-add m n b)

next_times : (i s : ℕ) → suc i * s ≡ s + i * s
next_times i s = omega (arith, suc_times i s)

-- The row that is found behind `i` others, read without its padding.
scanlines-row :
    (n : ℕ) (p : Bytes) (i y : ℕ)
    → (i + suc y) * n ≤ length p
    → first n (skip (i * stride_of n) (scanlines n p (i + suc y))) ≡ swapped (row n p y)
unfolding scanlines scanline row skip
scanlines-row n p zero y h =
    rw (zero_times (stride_of n), zero_plus (suc y))
      (first-append_twice n (swapped (row n p y)) (zeros (stride_of n - n)) (scanlines n p y)
        (length-row n p y (below y n (length p) (rw (← zero_plus (suc y)) h)).0))
scanlines-row n p (suc i) y h =
    let (here, rest) = below (i + suc y) n (length p) (rw (← suc_plus i (suc y)) h) in
    rw
      (
        next_times i (stride_of n),
        suc_plus i (suc y),
        skip-add (stride_of n) (i * stride_of n),
        skip-append (stride_of n) (scanline n p (i + suc y)) (scanlines n p (i + suc y))
            (length-scanline n p (i + suc y) here),
      )
      (scanlines-row n p i y rest)

sizes_equal : (a b c : ℕ) → (not (nat_eq a 24) || not (nat_eq b c)) ≡ false → b ≡ c
sizes_equal a b c h = ground arith

-- The conditions under which a raster is taken, and what it becomes.
taken :
    (x : PhysicalLabelRaster) (raw : Bytes) (stride : ℕ)
    → bgr_bottom_up x ≡ ok (raw, stride)
    → (length x.image.pixels ≡ x.image.width * x.image.height * 3)
      × (raw ≡ scanlines (x.image.width * 3) x.image.pixels x.image.height)
      × (stride ≡ stride_of (x.image.width * 3))
unfolding bgr_bottom_up
taken x raw stride h =
    let (full, same) = unless_ok _ _ _ (raw, stride) h in
    (sizes_equal x.image.bpp _ _ full, sym (ap (λ p. p.0) same), sym (ap (λ p. p.1) same))

swap_factors : (w h : ℕ) → h * (w * 3) ≡ w * h * 3
swap_factors w h = omega arith

-- Where `_bgr_bottom_up` takes a raster, the stride is a multiple of 4, no shorter than a row and less
-- than 4 bytes longer, and the result has exactly `height` rows of that many bytes.
pub bgr_bottom_up-size :
    (x : PhysicalLabelRaster) (raw : Bytes) (stride : ℕ)
    → bgr_bottom_up x ≡ ok (raw, stride)
    → (length raw ≡ x.image.height * stride)
      × (stride % 4 ≡ 0)
      × (x.image.width * 3 ≤ stride)
      × (stride < x.image.width * 3 + 4)
unfolding stride_of
bgr_bottom_up-size x raw stride h =
    let (full, bytes, wide) = taken x raw stride h in
    let n = x.image.width * 3 in
    rw (bytes, wide)
      (
        length-scanlines n x.image.pixels x.image.height
            (rw (full, swap_factors x.image.width x.image.height) (omega arith)),
        omega arith,
        (stride-bounds n).0,
        (stride-bounds n).1,
      )

-- Where `_bgr_bottom_up` takes a raster, the pixels of row `y` come back: from the row that stands
-- behind the `i` rows below it, without its padding and with its colours swapped again.
pub bgr_bottom_up-row :
    (x : PhysicalLabelRaster) (raw : Bytes) (stride i y : ℕ)
    → bgr_bottom_up x ≡ ok (raw, stride)
    → x.image.height ≡ i + suc y
    → swapped (first (x.image.width * 3) (skip (i * stride) raw))
      ≡ first (x.image.width * 3) (skip (y * (x.image.width * 3)) x.image.pixels)
unfolding row
bgr_bottom_up-row x raw stride i y h tall =
    let (full, bytes, wide) = taken x raw stride h in
    let n = x.image.width * 3 in
    rw (bytes, wide, tall)
      (ap swapped (
          scanlines-row n x.image.pixels i y
            (rw (full, ← swap_factors x.image.width x.image.height, tall) (omega arith)))
        ∙ swapped_twice _)
