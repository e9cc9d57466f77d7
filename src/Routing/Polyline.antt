-- ===== src/Routing/Polyline.antt =====
-- safety/routing/polyline.py: Google's encoded polylines. A text is the list of its characters'
-- codes. A float is its exact value, which is a decimal; that multiplying and dividing by 10 **
-- precision may round to another float is left out. The bits that `|=` sets are still clear, so it
-- is written as a sum. An error is none.
pub mod Nearest
pub mod RoundTrip
use crime_prevention_and_per.Prelude.{
  ltb, leb, nat_eq, if◌then◌else◌, ℕ, zero, suc, ◌+◌, ◌-◌, ◌*◌, ◌/◌, ◌%◌, ◌^◌, ◌||◌, Option, none,
  some, List, [], ◌∷◌, ◌++◌, map,
}
use crime_prevention_and_per.Prelude.Int.{ℤ, pos, negsuc, ◌+ℤ◌, ◌-ℤ◌}

-- a coordinate: `mantissa` / 10 ** `places`
pub record Decimal : Type 0 where
  pub mantissa : ℤ
  pub places : ℕ

-- `~(result >> 1) if result & 1 else result >> 1`
unfoldable pub signed : ℕ → ℤ
signed n = if nat_eq (n % 2) 1 then negsuc (n / 2) else pos (n / 2)

abbrev pub cons_value : ℕ → Option (List ℤ) → Option (List ℤ)
cons_value n none = none
cons_value n (some values) = some (signed n ∷ values)

-- `_varints`, all of them, with the loop's `result` and `shift`
unfoldable pub varints : List ℕ → ℕ → ℕ → Option (List ℤ)
varints [] result shift = if nat_eq shift 0 then some [] else none
varints (ch ∷ text) result shift =
    let byte = ch - 63 in
    let result' = result + byte % 32 * 2 ^ shift in
    let ended = cons_value result' (varints text 0 0) in
    let goes_on = varints text result' (shift + 5) in
    if ltb ch 63 || ltb 63 byte
    then none
    else if ltb byte 32
    then ended
    else if ltb 64 (shift + 5)
    then none
    else goes_on

-- the loop of `decode` over pairs of values; an odd number of them is an error
unfoldable pub points_from : ℤ → ℤ → List ℤ → Option (List (ℤ × ℤ))
unfolding ◌+ℤ◌
points_from lat lng [] = some []
points_from lat lng (x ∷ []) = none
points_from lat lng (x ∷ y ∷ values) = elim (points_from (lat +ℤ x) (lng +ℤ y) values) [
  | none ↦ none
  | some points ↦ some ((lat +ℤ x, lng +ℤ y) ∷ points)
]

-- a point of whole numbers, divided by 10 ** precision
abbrev pub divided : ℕ → ℤ × ℤ → Decimal × Decimal
divided precision point = (
  record { mantissa = point.0; places = precision },
  record { mantissa = point.1; places = precision },
)

-- `decode`
unfoldable pub decode : List ℕ → ℕ → Option (List (Decimal × Decimal))
unfolding varints points_from
decode text precision =
    if ltb precision 1 || ltb 10 precision then none else elim (varints text 0 0) [
      | none ↦ none
      | some values ↦ elim (points_from (pos 0) (pos 0) values) [
        | none ↦ none
        | some points ↦ some (map (divided precision) points)
      ]
    ]

-- `~(value << 1) if value < 0 else value << 1`
unfoldable pub zigzag : ℤ → ℕ
zigzag (pos n) = 2 * n
zigzag (negsuc n) = 2 * n + 1

-- the loop of `_encode_value`; each round divides by 32, so `value + 1` rounds are enough
unfoldable pub chunks : ℕ → ℕ → List ℕ
chunks zero value = []
chunks (suc fuel) value =
    let rest = chunks fuel (value / 32) in
    if leb 32 value then (32 + value % 32 + 63) ∷ rest else (value + 63) ∷ []

unfoldable pub encode_value : ℤ → List ℕ
unfolding chunks zigzag
encode_value value = chunks (suc (zigzag value)) (zigzag value)

-- Python's `round` of n / d: to the nearest whole number, a half to the even one
unfoldable pub round_half_even : ℕ → ℕ → ℕ
round_half_even n d =
    let q = n / d in
    if ltb (2 * (n % d)) d then q else if ltb d (2 * (n % d)) || nat_eq (q % 2) 1 then q + 1 else q

abbrev pub negated : ℕ → ℤ
negated zero = pos 0
negated (suc n) = negsuc n

-- `round(x * factor)`
unfoldable pub rounded : ℕ → Decimal → ℤ
unfolding round_half_even
rounded precision x = elim x.mantissa [
  | pos n ↦ pos (round_half_even (n * 10 ^ precision) (10 ^ x.places))
  | negsuc n ↦ negated (round_half_even (suc n * 10 ^ precision) (10 ^ x.places))
]

-- the rest of the loop of `encode`, from the previous point
unfoldable pub encode_from : ℤ → ℤ → List (ℤ × ℤ) → List ℕ
unfolding encode_value ◌-ℤ◌
encode_from lat lng [] = []
encode_from lat lng ((x, y) ∷ points) =
    encode_value (x -ℤ lat) ++ (encode_value (y -ℤ lng) ++ encode_from x y points)

abbrev pub rounded_point : ℕ → Decimal × Decimal → ℤ × ℤ
rounded_point precision point = (rounded precision point.0, rounded precision point.1)

unfoldable pub encode : List (Decimal × Decimal) → ℕ → List ℕ
unfolding encode_from rounded
encode points precision = encode_from (pos 0) (pos 0) (map (rounded_point precision) points)
