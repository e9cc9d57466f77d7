-- ===== src/Routing/Polyline/Nearest.antt =====
-- safety/routing/polyline.py, `round(lat * factor)`: how far a rounded coordinate is off.
use crime_prevention_and_per.Prelude.{
  ltb, nat_eq, Bool-cases, ℕ, zero, suc, ◌+◌, ◌*◌, ◌/◌, ◌%◌, ◌^◌, ◌≤◌, ◌<◌, ◌≡◌, refl, ◌⊎◌, inl,
  inr, arith,
}
use crime_prevention_and_per.Prelude.Int.{ℤ, pos, negsuc, pos_part, neg_part}
use crime_prevention_and_per.Routing.Polyline.{Decimal, round_half_even, negated, rounded}

-- One decimal has so many places and is off by at most half a unit of the last of them, and by
-- exactly half only if its last digit is even.
abbrev pub IsNear : ℕ → Decimal → Decimal → Type 0
IsNear precision x y =
    let u = 10 ^ precision in
    let d = 10 ^ x.places in
    (y.places ≡ precision)
    × (2 * (pos_part y.mantissa * d + neg_part x.mantissa * u)
        ≤ 2 * (neg_part y.mantissa * d + pos_part x.mantissa * u) + d)
    × (2 * (neg_part y.mantissa * d + pos_part x.mantissa * u)
        ≤ 2 * (pos_part y.mantissa * d + neg_part x.mantissa * u) + d)
    × (((pos_part y.mantissa + neg_part y.mantissa) % 2 ≡ 0)
        ⊎ ((2 * (pos_part y.mantissa * d + neg_part x.mantissa * u)
              < 2 * (neg_part y.mantissa * d + pos_part x.mantissa * u) + d)
            × (2 * (neg_part y.mantissa * d + pos_part x.mantissa * u)
                < 2 * (pos_part y.mantissa * d + neg_part x.mantissa * u) + d)))

round_half_even_lem :
    (n d : ℕ)
    → 0 < d
    → (2 * (round_half_even n d * d) ≤ 2 * n + d) × (2 * n ≤ 2 * (round_half_even n d * d) + d)
unfolding round_half_even
round_half_even_lem n d h =
    let whole : n / d * d + n % d ≡ n = grind arith in
    let part : n % d < d = grind arith in
    let next : (n / d + 1) * d ≡ n / d * d + d = grind arith in ground arith

half_even_lem :
    (n d : ℕ)
    → 0 < d
    → (round_half_even n d % 2 ≡ 0)
      ⊎ ((2 * (round_half_even n d * d) < 2 * n + d) × (2 * n < 2 * (round_half_even n d * d) + d))
unfolding round_half_even
half_even_lem n d h =
    let whole : n / d * d + n % d ≡ n = grind arith in
    let part : n % d < d = grind arith in
    let next : (n / d + 1) * d ≡ n / d * d + d = grind arith in
    elim (Bool-cases (ltb (2 * (n % d)) d)) [
      | inl down ↦ rw down (inr (ground arith))
      | inr not_down ↦ elim (Bool-cases (ltb d (2 * (n % d)))) [
        | inl up ↦ rw (not_down, up) (inr (ground arith))
        | inr half ↦ elim (Bool-cases (nat_eq (n / d % 2) 1)) [
          | inl odd ↦ rw (not_down, half, odd) (inl (ground arith))
          | inr even ↦ rw (not_down, half, even) (inl (ground arith))
        ]
      ]
    ]

parts-negated : (n : ℕ) → (pos_part (negated n) ≡ 0) × (neg_part (negated n) ≡ n)
parts-negated zero = (refl, refl)
parts-negated (suc n) = (refl, refl)

pow_pos : (k : ℕ) → 0 < 10 ^ k
pow_pos zero = omega arith
pow_pos (suc k) = let e : 10 ^ suc k ≡ 10 * 10 ^ k = omega arith in omega (arith, e, pow_pos k)

-- The same of whole numbers: z times d and m times u differ by at most half of d, and by half
-- only if z is even.
abbrev NearParts : ℕ → ℕ → ℤ → ℤ → Type 0
NearParts u d z m =
    (2 * (pos_part z * d + neg_part m * u) ≤ 2 * (neg_part z * d + pos_part m * u) + d)
    × (2 * (neg_part z * d + pos_part m * u) ≤ 2 * (pos_part z * d + neg_part m * u) + d)
    × (((pos_part z + neg_part z) % 2 ≡ 0)
        ⊎ ((2 * (pos_part z * d + neg_part m * u) < 2 * (neg_part z * d + pos_part m * u) + d)
            × (2 * (neg_part z * d + pos_part m * u) < 2 * (pos_part z * d + neg_part m * u) + d)))

near_pos : (n u d : ℕ) → 0 < d → NearParts u d (pos (round_half_even (n * u) d)) (pos n)
near_pos n u d h =
    let r = round_half_even_lem (n * u) d h in
    (
      omega (arith, r.0),
      omega (arith, r.1),
      elim (half_even_lem (n * u) d h) [
        | inl even ↦ inl (omega (arith, even))
        | inr near ↦ inr (omega (arith, near.0), omega (arith, near.1))
      ],
    )

near_negsuc :
    (n u d : ℕ) → 0 < d → NearParts u d (negated (round_half_even (suc n * u) d)) (negsuc n)
near_negsuc n u d h =
    let r = round_half_even_lem (suc n * u) d h in
    rw (parts-negated (round_half_even (suc n * u) d)).0 (
      rw (parts-negated (round_half_even (suc n * u) d)).1 (
        omega (arith, r.1),
        omega (arith, r.0),
        elim (half_even_lem (suc n * u) d h) [
          | inl even ↦ inl (omega (arith, even))
          | inr near ↦ inr (omega (arith, near.1), omega (arith, near.0))
        ],
      ))

pub rounded-IsNear :
    (precision : ℕ) (x : Decimal)
    → IsNear precision x (record { mantissa = rounded precision x; places = precision })
unfolding rounded
rounded-IsNear precision x =
    let u = 10 ^ precision in
    let d = 10 ^ x.places in
    let h : NearParts u d (rounded precision x) x.mantissa =
      elim x.mantissa
        as (λ m.
          NearParts u d
            (elim m [
              | pos n ↦ pos (round_half_even (n * u) d)
              | negsuc n ↦ negated (round_half_even (suc n * u) d)
            ])
            m) [
              | pos n ↦ near_pos n u d (pow_pos x.places)
              | negsuc n ↦ near_negsuc n u d (pow_pos x.places)
            ] in
    (refl, h.0, h.1, h.2)
