-- ===== src/Handlers/Scan/Addresses.antt =====
-- Sources/GDBRemote/Session.cpp: addresses that formatAddress printed, read by parseAddress.
use mathlib.Core.Path.{subst}
use ds.Base.{
  ℕ, zero, suc, append-nil, ◌+◌, ◌-◌, ◌*◌, ◌/◌, ◌%◌, ◌^◌, ◌<◌, ◌≡◌, refl, ap, ◌∙◌, ◌⊎◌, inl, inr,
  false, [], ◌∷◌, ◌++◌, Bytes, ◌==◌, if◌then◌else◌, length, arith,
}
use ds.Structures.RegisterTexts.{swap16, swap32, swap64}
use ds.Structures.CpuTypes.{Endian, unknown_endian, big, little, pdp, is_little}
use ds.Structures.Numbers.{hex, padded, zeros}
use ds.Structures.Numbers.RoundTrip.{hex-IsFull, IsFull}
use ds.Structures.Numbers.Fixed.{length-padded}
use ds.Structures.Numbers.Padded.{strtoul-padded}
use ds.Breakpoint.Sites.{at}
use ds.Handlers.Scan.{parse_address, format_address, nothing_read}

swap16_twice : (x : ℕ) → x < 2 ^ 16 → swap16 (swap16 x) ≡ x
unfolding swap16
swap16_twice x h = omega arith

swap16_lt : (x : ℕ) → swap16 x < 2 ^ 16
unfolding swap16
swap16_lt x = omega arith

swap32_halves :
    (hi lo : ℕ)
    → hi < 2 ^ 16
    → lo < 2 ^ 16
    → swap32 (hi + lo * 2 ^ 16) ≡ swap16 lo + swap16 hi * 2 ^ 16
unfolding swap32
swap32_halves hi lo p q =
    let e : (hi + lo * 2 ^ 16) / 2 ^ 16 % 2 ^ 16 ≡ lo = omega arith in
    let f : (hi + lo * 2 ^ 16) % 2 ^ 16 ≡ hi = omega arith in rw (e, f) refl

swap32_lem : (x : ℕ) → swap32 x ≡ swap16 (x / 2 ^ 16 % 2 ^ 16) + swap16 (x % 2 ^ 16) * 2 ^ 16
unfolding swap32
swap32_lem x = refl

swap32_twice : (x : ℕ) → x < 2 ^ 32 → swap32 (swap32 x) ≡ x
swap32_twice x h =
    let hi = x / 2 ^ 16 % 2 ^ 16 in
    let lo = x % 2 ^ 16 in
    ap swap32 (swap32_lem x)
    ∙ swap32_halves (swap16 hi) (swap16 lo) (swap16_lt hi) (swap16_lt lo)
    ∙ omega (arith, swap16_twice hi (omega arith), swap16_twice lo (omega arith))

swap32_lt : (x : ℕ) → swap32 x < 2 ^ 32
unfolding swap32
swap32_lt x = omega (arith, swap16_lt (x / 2 ^ 16 % 2 ^ 16), swap16_lt (x % 2 ^ 16))

swap64_halves :
    (hi lo : ℕ)
    → hi < 2 ^ 32
    → lo < 2 ^ 32
    → swap64 (hi + lo * 2 ^ 32) ≡ swap32 lo + swap32 hi * 2 ^ 32
unfolding swap64
swap64_halves hi lo p q =
    let e : (hi + lo * 2 ^ 32) / 2 ^ 32 % 2 ^ 32 ≡ lo = omega arith in
    let f : (hi + lo * 2 ^ 32) % 2 ^ 32 ≡ hi = omega arith in rw (e, f) refl

swap64_lem : (x : ℕ) → swap64 x ≡ swap32 (x / 2 ^ 32 % 2 ^ 32) + swap32 (x % 2 ^ 32) * 2 ^ 32
unfolding swap64
swap64_lem x = refl

swap64_twice : (x : ℕ) → x < 2 ^ 64 → swap64 (swap64 x) ≡ x
swap64_twice x h =
    let hi = x / 2 ^ 32 % 2 ^ 32 in
    let lo = x % 2 ^ 32 in
    ap swap64 (swap64_lem x)
    ∙ swap64_halves (swap32 hi) (swap32 lo) (swap32_lt hi) (swap32_lt lo)
    ∙ omega (arith, swap32_twice hi (omega arith), swap32_twice lo (omega arith))

swap64_lt : (x : ℕ) → swap64 x < 2 ^ 64
unfolding swap64
swap64_lt x = omega (arith, swap32_lt (x / 2 ^ 32 % 2 ^ 32), swap32_lt (x % 2 ^ 32))

swap32_zero : swap32 0 ≡ 0
unfolding swap32 swap16
swap32_zero = refl

-- A value of 32 bits stands in the upper half after the swap.
swap64_small : (x : ℕ) → x < 2 ^ 32 → swap64 x ≡ swap32 x * 2 ^ 32
swap64_small x h =
    let e : x / 2 ^ 32 % 2 ^ 32 ≡ 0 = omega arith in
    let f : x % 2 ^ 32 ≡ x = omega arith in swap64_lem x ∙ rw (e, f, swap32_zero) (omega arith)

-- What is printed for an address, in each order of bytes.
printed : ℕ → Endian → ℕ → ℕ
printed regsize endian value = if is_little endian then swap64 value / 2 ^ (64 - regsize) else value

-- What is read from such a number.
understood : ℕ → Endian → ℕ → ℕ
understood regsize endian n =
    if is_little endian
    then (if regsize == 64
        then swap64 n / 2 ^ (64 - regsize)
        else swap64 n / 2 ^ (64 - regsize) % 2 ^ regsize)
    else n

padded-IsFull : (width n : ℕ) → IsFull (padded width (hex n))
unfolding padded zeros
padded-IsFull width n = full_after (width - length (hex n)) (hex n) (digits_full n)
  where
    digits_full : (k : ℕ) → IsFull (hex k)
    digits_full k = subst IsFull (append-nil (hex k)) (hex-IsFull k [])

    full_after : (k : ℕ) (s : Bytes) → IsFull s → IsFull (zeros k ++ s)
    full_after zero s h = h
    full_after (suc k) s h = tt

something_read :
    (s : Bytes) (n : ℕ)
    → IsFull s
    → nothing_read s (record { number = n; rest = []; out_of_range = false }) ≡ false
unfolding nothing_read
something_read [] n h = absurd h
something_read (c ∷ s) n h = ground arith

-- The end of the text is where parse_address stops, and the number is what it understands.
parse_printed :
    (regsize width : ℕ) (endian : Endian) (n : ℕ)
    → n < 2 ^ 64
    → parse_address regsize endian (padded width (hex n)) ≡ (at (understood regsize endian n), [])
unfolding parse_address understood
parse_printed regsize width unknown_endian n h =
    rw (strtoul-padded width n h, something_read (padded width (hex n)) n (padded-IsFull width n))
      refl
parse_printed regsize width big n h =
    rw (strtoul-padded width n h, something_read (padded width (hex n)) n (padded-IsFull width n))
      refl
parse_printed regsize width little n h =
    rw (strtoul-padded width n h, something_read (padded width (hex n)) n (padded-IsFull width n))
      refl
parse_printed regsize width pdp n h =
    rw (strtoul-padded width n h, something_read (padded width (hex n)) n (padded-IsFull width n))
      refl

over_one : (x : ℕ) → x / 2 ^ (64 - 64) ≡ x
over_one x = omega arith

understood-printed :
    (endian : Endian) (a : ℕ) → a < 2 ^ 64 → understood 64 endian (printed 64 endian a) ≡ a
unfolding understood printed
understood-printed little a h = (omega (arith, swap64_twice a h, ap swap64 (over_one (swap64 a))))
understood-printed unknown_endian a h = refl
understood-printed big a h = refl
understood-printed pdp a h = refl

upper_half : (a : ℕ) → a < 2 ^ 32 → swap64 a / 2 ^ (64 - 32) ≡ swap32 a
upper_half a h = omega (arith, swap64_small a h)

understood-printed_small :
    (endian : Endian) (a : ℕ) → a < 2 ^ 32 → understood 32 endian (printed 32 endian a) ≡ a
unfolding understood printed
understood-printed_small little a h =
    ap (λ x. swap64 x / 2 ^ (64 - 32) % 2 ^ 32) (upper_half a h)
    ∙ omega (arith, swap64_small (swap32 a) (swap32_lt a), swap32_twice a h)
understood-printed_small unknown_endian a h = refl
understood-printed_small big a h = refl
understood-printed_small pdp a h = refl

printed_lt :
    (regsize : ℕ) (endian : Endian) (a : ℕ) → a < 2 ^ 64 → printed regsize endian a < 2 ^ 64
unfolding printed
printed_lt regsize little a h = swapped_lt (swap64 a) (2 ^ (64 - regsize)) (swap64_lt a)
  where
    swapped_lt : (x k : ℕ) → x < 2 ^ 64 → x / k < 2 ^ 64
    swapped_lt x k below = grind arith
printed_lt regsize unknown_endian a h = h
printed_lt regsize big a h = h
printed_lt regsize pdp a h = h

printed_small : (endian : Endian) (a : ℕ) → a < 2 ^ 32 → printed 32 endian a < 2 ^ 32
unfolding printed
printed_small little a h = omega (arith, upper_half a h, swap32_lt a)
printed_small unknown_endian a h = h
printed_small big a h = h
printed_small pdp a h = h

format_address_lem :
    (regsize : ℕ) (endian : Endian) (a : ℕ)
    → (if regsize == 64 then a else a % 2 ^ regsize) ≡ a
    → format_address regsize endian a ≡ padded (regsize / 4) (hex (printed regsize endian a))
unfolding format_address printed
format_address_lem regsize endian a e =
    ap
      (λ v.
        padded (regsize / 4) (hex (if is_little endian then swap64 v / 2 ^ (64 - regsize) else v)))
      e

-- An address that fits a target's registers, of 32 or of 64 bits.
abbrev pub Fits : ℕ → ℕ → Type 0
Fits regsize a = ((regsize ≡ 32) × (a < 2 ^ 32)) ⊎ ((regsize ≡ 64) × (a < 2 ^ 64))

-- The text has two digits for each byte of a register.
pub length-format_address :
    (regsize : ℕ) (endian : Endian) (a : ℕ)
    → Fits regsize a
    → length (format_address regsize endian a) ≡ regsize / 8 * 2
length-format_address regsize endian a (inl (narrow, h)) = rw narrow (
    ap length (format_address_lem 32 endian a (omega arith))
    ∙ length-padded 7 (printed 32 endian a) (printed_small endian a h) (omega arith))
length-format_address regsize endian a (inr (wide, h)) = rw wide (
    ap length (format_address_lem 64 endian a refl)
    ∙ length-padded 15 (printed 64 endian a) (printed_lt 64 endian a h) (omega arith))

-- On a target with registers of 32 or of 64 bits, every address that fits a register survives
-- formatAddress followed by parseAddress, in either order of bytes, and the whole text is read.
pub parse_address-format_address :
    (regsize : ℕ) (endian : Endian) (a : ℕ)
    → Fits regsize a
    → parse_address regsize endian (format_address regsize endian a) ≡ (at a, [])
parse_address-format_address regsize endian a (inl (narrow, h)) = rw narrow (
    ap (parse_address 32 endian) (format_address_lem 32 endian a (omega arith))
    ∙ parse_printed 32 (32 / 4) endian (printed 32 endian a) (printed_lt 32 endian a (omega arith))
    ∙ ap (λ v. (at v, [])) (understood-printed_small endian a h))
parse_address-format_address regsize endian a (inr (wide, h)) = rw wide (
    ap (parse_address 64 endian) (format_address_lem 64 endian a refl)
    ∙ parse_printed 64 (64 / 4) endian (printed 64 endian a) (printed_lt 64 endian a h)
    ∙ ap (λ v. (at v, [])) (understood-printed endian a h))
