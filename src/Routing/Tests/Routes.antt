-- ===== src/Routing/Tests/Routes.antt =====
-- The theorems on lower-activity routes at concrete inputs.
use crime_prevention_and_per.Prelude.{
  ltb, nat_eq, all_below, ℕ, ◌-◌, ◌*◌, ◌/◌, ◌≡◌, refl, Bool, true, none, some, List, [], ◌∷◌, arith,
}
use crime_prevention_and_per.Routing.Scoring.{Floats, Candidate, lower, pick, distinct_routes}
use crime_prevention_and_per.Routing.Scoring.Offers.{IsOrdered, Answers, pick-Answers}
use crime_prevention_and_per.Routing.Scoring.Distinct.{AreApart, is_covered, distinct_routes_lem}

-- thousandths, rounded down, and no negative number
abbrev thousandths : Floats ℕ
thousandths = record { lit = λ n. n; sub = λ a b. a - b; mul = λ a b. a * b / 1000; lt = ltb }

thousandths-IsOrdered : IsOrdered thousandths
thousandths-IsOrdered = record {
  lt_le = λ a b h. ground arith;
  le_trans = λ a b c h k. ground arith;
  sub_le = λ x a b h. ground arith;
}

abbrev direct : Candidate ℕ
direct = record { duration_s = 900_000; mean_ratio = some 2000 }

-- The first detour is near and lower, the second is lower still and too slow.
abbrev detours : List (Candidate ℕ)
detours =
    record { duration_s = 1_050_000; mean_ratio = some 1500 }
    ∷ record { duration_s = 2_000_000; mean_ratio = some 1000 }
    ∷ record { duration_s = 950_000; mean_ratio = none }
    ∷ []

offers_the_first : pick thousandths "walk" direct detours ≡ lower 1
unfolding pick
offers_the_first = refl

pick-Answers_example :
    Answers thousandths "walk" direct detours (pick thousandths "walk" direct detours)
pick-Answers_example = pick-Answers thousandths thousandths-IsOrdered "walk" direct detours

-- Routes are the same if their numbers are, but for the last digit.
abbrev same_ten : ℕ → ℕ → Bool
same_ten i j = nat_eq (i / 10) (j / 10)

keeps_two : distinct_routes same_ten 15 ≡ 0 ∷ 10 ∷ []
unfolding distinct_routes
keeps_two = refl

distinct_routes_lem_example :
    let kept = distinct_routes same_ten 15 in
    AreApart same_ten kept × (all_below 15 (is_covered same_ten kept) ≡ true)
distinct_routes_lem_example = distinct_routes_lem same_ten 15
