-- ===== src/Event/Resources/Exact.antt =====
-- Prices that a column of four decimals holds exactly: neither they nor their totals are rounded.
use Prim.Native.Nat.{◌^◌}
use native.Mathlib.Nat.{div-eq_of_lt-le, one-le-pow}
use sams_backend.Base.{ℕ, ◌+◌, ◌*◌, ◌/◌, ◌≤◌, ◌≡◌, refl, sym, ◌∙◌, ap, arith}
use sams_backend.Event.Resources.Rows.{Decimal, to_column, times, from_column}

-- A whole number of ten-thousandths.
abbrev pub IsExact : Decimal → Type 0
IsExact d = (m : ℕ) × (d.coefficient * 10000 ≡ m * 10 ^ d.places)

half_up : (m p : ℕ) → 1 ≤ p → (2 * (m * p) + p) / (2 * p) ≡ m
half_up m p h =
    let left : m * (2 * p) ≡ 2 * (m * p) = omega arith in
    let right : (m + 1) * (2 * p) ≡ 2 * (m * p) + 2 * p = omega arith in
    div-eq_of_lt-le {k = m} (2 * p) (omega (arith, left)) (omega (arith, right, h))

to_column-exact :
    (d : Decimal) (m : ℕ) → d.coefficient * 10000 ≡ m * 10 ^ d.places → to_column d ≡ m
unfolding to_column
to_column-exact d m e =
    ap (λ n. (2 * n + 10 ^ d.places) / (2 * 10 ^ d.places)) e
    ∙ half_up m (10 ^ d.places) (one-le-pow d.places 10 (omega arith))

-- The total of an exact price is the stored price times the quantity.
pub to_column-times : (d : Decimal) (q : ℕ) → IsExact d → to_column (times d q) ≡ to_column d * q
to_column-times d q (m, e) =
    let whole : d.coefficient * q * 10000 ≡ m * q * 10 ^ d.places =
      omega (arith, ap (λ n. n * q) e) in
    to_column-exact (times d q) (m * q) whole ∙ ap (λ n. n * q) (sym (to_column-exact d m e))

-- What is read from a column goes back unchanged.
pub from_column-IsExact : (n : ℕ) → IsExact (from_column n)
from_column-IsExact n = (n, refl)

pub to_column-from_column : (n : ℕ) → to_column (from_column n) ≡ n
to_column-from_column n = to_column-exact (from_column n) n refl
