-- ===== src/Routing/Polyline/RoundTrip.antt =====
-- Decoding what was encoded.
use native.Mathlib.Numerals.{towards_suc}
use crime_prevention_and_per.Prelude.{
  ltb, leb, lt→ltb, leb→le, Bool-cases, ℕ, zero, suc, ◌+◌, ◌-◌, ◌*◌, ◌/◌, ◌%◌, ◌^◌, ◌≤◌, ◌<◌, ◌≡◌,
  refl, sym, ap, subst, ◌∙◌, ◌⊎◌, inl, inr, false, Option, none, some, List, [], ◌∷◌, ◌++◌, map,
  arith,
}
use crime_prevention_and_per.Prelude.Int.{ℤ, pos, negsuc, ◌+ℤ◌, ◌-ℤ◌, eq_of_parts, int_laws}
use crime_prevention_and_per.Routing.Polyline.Nearest.{IsNear, rounded-IsNear}
use crime_prevention_and_per.Routing.Polyline.{
  Decimal, signed, cons_value, varints, points_from, divided, decode, zigzag, chunks, encode_value,
  encode_from, rounded_point, encode,
}

-- The number fits into so many groups of five bits.
abbrev Fits : ℕ → ℕ → Type 0
Fits zero v = ⊥
Fits (suc room) v = (v < 32) ⊎ Fits room (v / 32)

Fits-pow : (room v : ℕ) → v < 32 ^ suc room → Fits (suc room) v
Fits-pow zero v h = inl (omega (arith, h))
Fits-pow (suc room) v h =
    let e : 32 ^ suc (suc room) ≡ 32 * 32 ^ suc room = omega arith in
    inr (Fits-pow room (v / 32) (omega (arith, e, h)))

shifted : (shift : ℕ) → 2 ^ (shift + 5) ≡ 32 * 2 ^ shift
shifted shift = simp towards_suc (omega arith)

regroup : (q r p : ℕ) → r * p + q * (32 * p) ≡ (q * 32 + r) * p
regroup q r p = omega arith

accumulates :
    (v result shift : ℕ)
    → result + v % 32 * 2 ^ shift + v / 32 * 2 ^ (shift + 5) ≡ result + v * 2 ^ shift
accumulates v result shift =
    let p = 2 ^ shift in
    let whole : (v / 32 * 32 + v % 32) * p ≡ v * p = ap (λ (t : ℕ). t * p) (omega arith) in
    let part : v / 32 * 2 ^ (shift + 5) ≡ v / 32 * (32 * p) =
      ap (λ (t : ℕ). v / 32 * t) (shifted shift) in
    omega (arith, regroup (v / 32) (v % 32) p, whole, part)

varints_last :
    (ch result shift : ℕ) (rest : List ℕ)
    → ch < 32
    → varints ((ch + 63) ∷ rest) result shift
      ≡ cons_value (result + ch * 2 ^ shift) (varints rest 0 0)
unfolding varints
varints_last ch result shift rest h =
    let e : ch + 63 - 63 ≡ ch = omega arith in
    let m : ch % 32 ≡ ch = omega arith in
    let low : ltb (ch + 63) 63 ≡ false = ground arith in
    let high : ltb 63 ch ≡ false = ground arith in rw (e, m, low, high, lt→ltb ch 32 h) refl

varints_more :
    (low result shift : ℕ) (rest : List ℕ)
    → low < 32
    → shift + 5 ≤ 64
    → varints ((32 + low + 63) ∷ rest) result shift
      ≡ varints rest (result + low * 2 ^ shift) (shift + 5)
unfolding varints
varints_more low result shift rest h k =
    let e : 32 + low + 63 - 63 ≡ 32 + low = omega arith in
    let m : (32 + low) % 32 ≡ low = omega arith in
    let a : ltb (32 + low + 63) 63 ≡ false = ground arith in
    let b : ltb 63 (32 + low) ≡ false = ground arith in
    let c : ltb (32 + low) 32 ≡ false = ground arith in
    let d : ltb 64 (shift + 5) ≡ false = ground arith in rw (e, m, a, b, c, d) refl

varints-chunks :
    (fuel room v result shift : ℕ) (rest : List ℕ)
    → v < fuel
    → Fits room v
    → shift + 5 * room ≤ 65
    → varints (chunks fuel v ++ rest) result shift
      ≡ cons_value (result + v * 2 ^ shift) (varints rest 0 0)
unfolding chunks
varints-chunks zero room v result shift rest h t k = absurd (omega arith)
varints-chunks (suc fuel) zero v result shift rest h t k = absurd t
varints-chunks (suc fuel) (suc room) v result shift rest h t k = elim (Bool-cases (leb 32 v)) [
  | inr small ↦ rw small (varints_last v result shift rest (ground arith))
  | inl large ↦
      let big = leb→le 32 v large in
      let fits = tail room t big in
      let spare = some_room room (v / 32) fits in
      rw large (
        varints_more (v % 32) result shift (chunks fuel (v / 32) ++ rest) (omega arith)
          (omega arith)
        ∙ varints-chunks fuel room (v / 32) (result + v % 32 * 2 ^ shift) (shift + 5) rest
            (omega arith) fits (omega arith)
        ∙ ap (λ n. cons_value n (varints rest 0 0)) (accumulates v result shift))
]
  where
    tail : (r : ℕ) → (v < 32) ⊎ Fits r (v / 32) → 32 ≤ v → Fits r (v / 32)
    tail r (inl a) b = absurd (omega arith)
    tail r (inr a) b = a

    some_room : (r u : ℕ) → Fits r u → 0 < r
    some_room zero u f = absurd f
    some_room (suc r) u f = omega arith

signed-zigzag : (z : ℤ) → signed (zigzag z) ≡ z
unfolding signed zigzag
signed-zigzag (pos n) = ground arith
signed-zigzag (negsuc n) = ground arith

-- A difference that the decoder can read back: at most 65 bits with its sign.
abbrev pub IsShort : ℤ → Type 0
IsShort z = zigzag z < 32 ^ 13

-- One more value in front.
abbrev push {ℓ} : {A : Type ℓ} → A → Option (List A) → Option (List A)
push x none = none
push x (some xs) = some (x ∷ xs)

varints-encode_value :
    (z : ℤ) (rest : List ℕ)
    → IsShort z
    → varints (encode_value z ++ rest) 0 0 ≡ push z (varints rest 0 0)
unfolding encode_value
varints-encode_value z rest h =
    let n = zigzag z in
    varints-chunks (suc n) 13 n 0 0 rest (omega arith) (Fits-pow 12 n h) (omega arith)
    ∙ read (varints rest 0 0)
  where
    one : 0 + zigzag z * 2 ^ 0 ≡ zigzag z
    one = omega arith

    read : (o : Option (List ℤ)) → cons_value (0 + zigzag z * 2 ^ 0) o ≡ push z o
    read none = refl
    read (some values) = ap (λ x. some (x ∷ values)) (ap signed one ∙ signed-zigzag z)

-- Each step from a point to the next can be read back.
abbrev pub AreShort : ℤ → ℤ → List (ℤ × ℤ) → Type 0
AreShort lat lng [] = Unit
AreShort lat lng ((x, y) ∷ points) = IsShort (x -ℤ lat) × IsShort (y -ℤ lng) × AreShort x y points

add_sub : (a b : ℤ) → a +ℤ (b -ℤ a) ≡ b
add_sub a b = eq_of_parts _ _ (omega int_laws)

-- The differences that `encode` writes.
unfoldable steps : ℤ → ℤ → List (ℤ × ℤ) → List ℤ
steps lat lng [] = []
steps lat lng ((x, y) ∷ points) = (x -ℤ lat) ∷ (y -ℤ lng) ∷ steps x y points

varints-encode_from :
    (lat lng : ℤ) (points : List (ℤ × ℤ))
    → AreShort lat lng points
    → varints (encode_from lat lng points) 0 0 ≡ some (steps lat lng points)
unfolding encode_from steps
varints-encode_from lat lng [] h = unfold varints in refl
varints-encode_from lat lng ((x, y) ∷ points) (a, b, h) =
    let rest = encode_from x y points in
    let ih = varints-encode_from x y points h in
    let second = varints-encode_value (y -ℤ lng) rest b ∙ ap (push (y -ℤ lng)) ih in
    varints-encode_value (x -ℤ lat) (encode_value (y -ℤ lng) ++ rest) a
    ∙ ap (push (x -ℤ lat)) second

points_from-steps :
    (lat lng : ℤ) (points : List (ℤ × ℤ)) → points_from lat lng (steps lat lng points) ≡ some points
unfolding points_from steps
points_from-steps lat lng [] = refl
points_from-steps lat lng ((x, y) ∷ points) =
    arrive (lat +ℤ (x -ℤ lat)) (lng +ℤ (y -ℤ lng)) (add_sub lat x) (add_sub lng y)
      (points_from-steps x y points)
  where
    arrive :
        (u v : ℤ)
        → u ≡ x
        → v ≡ y
        → points_from x y (steps x y points) ≡ some points
        → elim (points_from u v (steps x y points)) [ none ↦ none | some ps ↦ some ((u, v) ∷ ps) ]
          ≡ some ((x, y) ∷ points)
    arrive u v p q ih =
        let here : points_from u v (steps x y points) ≡ some points = rw (p, q) ih in
        let moved : some ((u, v) ∷ points) ≡ some ((x, y) ∷ points) = rw (p, q) refl in
        ap (push (u, v)) here ∙ moved

-- Point by point, both coordinates are near.
abbrev pub AreNear : ℕ → List (Decimal × Decimal) → List (Decimal × Decimal) → Type 0
AreNear precision [] [] = Unit
AreNear precision (x ∷ xs) (y ∷ ys) =
    IsNear precision x.0 y.0 × IsNear precision x.1 y.1 × AreNear precision xs ys
AreNear precision [] (y ∷ ys) = ⊥
AreNear precision (x ∷ xs) [] = ⊥

-- Something is decoded, and it is near.
abbrev pub IsDecoded : ℕ → List (Decimal × Decimal) → Option (List (Decimal × Decimal)) → Type 0
IsDecoded precision points none = ⊥
IsDecoded precision points (some decoded) = AreNear precision points decoded

rounded-AreNear :
    (precision : ℕ) (points : List (Decimal × Decimal))
    → AreNear precision points (map (divided precision) (map (rounded_point precision) points))
rounded-AreNear precision [] = tt
rounded-AreNear precision (x ∷ points) =
    (rounded-IsNear precision x.0, rounded-IsNear precision x.1, rounded-AreNear precision points)

decoded :
    (points : List (Decimal × Decimal)) (precision : ℕ)
    → 1 ≤ precision
    → precision ≤ 10
    → AreShort (pos 0) (pos 0) (map (rounded_point precision) points)
    → decode (encode points precision) precision
      ≡ some (map (divided precision) (map (rounded_point precision) points))
unfolding decode encode
decoded points precision low high h =
    let a : ltb precision 1 ≡ false = ground arith in
    let b : ltb 10 precision ≡ false = ground arith in
    let whole = map (rounded_point precision) points in
    rw (a, b, varints-encode_from (pos 0) (pos 0) whole h, points_from-steps (pos 0) (pos 0) whole)
      refl

-- Whatever points are encoded, at a precision from 1 to 10, and decoded at the same precision, as
-- many points come back, in order, each coordinate with that many decimal places, off by at most half
-- a unit of the last, and by exactly half only with an even last digit, if no coordinate, so
-- rounded, moves by more than 65 bits from one point to the next.
pub decode-encode :
    (points : List (Decimal × Decimal)) (precision : ℕ)
    → 1 ≤ precision
    → precision ≤ 10
    → AreShort (pos 0) (pos 0) (map (rounded_point precision) points)
    → IsDecoded precision points (decode (encode points precision) precision)
decode-encode points precision low high h =
    subst (IsDecoded precision points) (sym (decoded points precision low high h))
      (rounded-AreNear precision points)
