-- ===== src/Browser/Format.antt =====
-- `formatSize`, `formatDuration` and `formatDate` of file-manager-page.js.
use native.Mathlib.Nat
use streaming_service.Base.{
  [], arith, drop, if◌then◌else◌, leb, ltb, take, ℕ, ◌%◌, ◌*◌, ◌++◌, ◌+◌, ◌-◌, ◌/◌, ◌<◌, ◌==◌, ◌∷◌,
  ◌≤◌,
}
use streaming_service.Base.Text.{Text, codes, decimal}

-- Two decimal digits of a number of hundredths below 100.
two_digits : ℕ → Text
two_digits n = (b'0' + n / 10 % 10) ∷ (b'0' + n % 10) ∷ []

-- `x.toFixed(2)` for `x = bytes / unit` in hundredths: the nearest number, and the larger of two.
-- The units are powers of two, so the quotient of the doubles is exact.
unfoldable pub hundredths : ℕ → ℕ → ℕ
hundredths bytes unit = (200 * bytes + unit) / (2 * unit)

unfoldable pub to_fixed : ℕ → ℕ → Text
unfolding hundredths two_digits
to_fixed bytes unit =
    let n = hundredths bytes unit in decimal (n / 100) ++ b'.' ∷ two_digits (n % 100)

unfoldable pub format_size : ℕ → Text
unfolding to_fixed
format_size bytes =
    if leb 1073741824 bytes
    then to_fixed bytes 1073741824 ++ codes " GB"
    else if leb 1048576 bytes
    then to_fixed bytes 1048576 ++ codes " MB"
    else if leb 1024 bytes
    then to_fixed bytes 1024 ++ codes " KB"
    else decimal bytes ++ codes " Bytes"

unfoldable pub format_duration : ℕ → Text
format_duration total =
    if ltb total 60
    then decimal total ++ codes "s"
    else if total % 60 == 0
    then decimal (total / 60) ++ codes "m"
    else decimal (total / 60) ++ (codes "m " ++ (decimal (total % 60) ++ codes "s"))

-- `s.slice(a, b)` for two positions
slice : ℕ → ℕ → Text → Text
slice a b s = take (b - a) (drop a s)

unfoldable pub format_date : Text → Text
unfolding slice
format_date iso =
    slice 8 10 iso
    ++ b'/'
      ∷ (slice 5 7 iso
          ++ b'/' ∷ (slice 0 4 iso ++ b' ' ∷ (slice 11 13 iso ++ b':' ∷ slice 14 16 iso)))

-- The hundredths that are shown differ from the exact quotient by at most half of one.
pub hundredths_close :
    (bytes unit : ℕ)
    → 0 < unit
    → (200 * bytes ≤ 2 * (hundredths bytes unit * unit) + unit)
      × (2 * (hundredths bytes unit * unit) ≤ 200 * bytes + unit)
unfolding hundredths
hundredths_close bytes unit h =
    let whole = Nat.div-add-mod (200 * bytes + unit) (2 * unit) in
    let rest = Nat.mod-lt (200 * bytes + unit) {m = 2 * unit} (omega arith) in
    (omega arith, omega arith)
