-- ===== src/Base/Text/Decimal.antt =====
-- `{}` of a `usize` or an `i64` that is not negative, and `join`.
use arbeiterfarm.Base.{ℕ, zero, suc, ◌+◌, ◌/◌, ◌%◌, List, [], ◌∷◌, ◌++◌, ltb, if◌then◌else◌}
use arbeiterfarm.Base.Text.{Text}

-- The decimal digits; a 64-bit number has at most 20.
unfoldable pub decimal_digits : ℕ → ℕ → Text → Text
decimal_digits zero n digits = digits
decimal_digits (suc fuel) n digits =
    let more = decimal_digits fuel (n / 10) ((0x30 + n % 10) ∷ digits) in
    if ltb n 10 then (0x30 + n) ∷ digits else more

abbrev pub decimal : ℕ → Text
decimal n = decimal_digits 20 n []

-- `join(separator)`
unfoldable pub join : Text → List Text → Text
join separator [] = []
join separator (t ∷ []) = t
join separator (t ∷ u ∷ rest) = t ++ (separator ++ join separator (u ∷ rest))
