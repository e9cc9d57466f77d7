-- ===== src/Etl/Validate/Accepted.antt =====
-- Which records a pull's checks let through, and how the others are counted.
use crime_prevention_and_per.Prelude.{
  ltb, leb, if◌then◌else◌, Bool-cases, length, keep, sum_by, String_eq, elem, ℕ, ◌+◌, String, ◌≡◌,
  refl, sym, ap, ◌∙◌, ◌⊎◌, inl, inr, Bool, true, false, not, ◌&&◌, Option, none, some, List, [],
  ◌∷◌, ◌++◌, append_assoc, append-nil, arith,
}
use crime_prevention_and_per.Prelude.Int.{ℤ}
use crime_prevention_and_per.OrderedDict.{Dict}
use crime_prevention_and_per.OrderedDict.Counting.{total-add_one}
use crime_prevention_and_per.Etl.Validate.{
  Incident, BoundingBox, epoch_floor, within, is_zero, location_reason, reject_reason, Checked,
  nothing_checked, reject_one, accept_one, check_one, check_all,
}
use crime_prevention_and_per.Etl.Validate.Result.{validate_records}

-- Somewhere, not at zero, and within the padded box of the city, if it has one.
abbrev pub located : Option ℤ → Option ℤ → Option BoundingBox → Bool
located none lng bbox = false
located (some lat) none bbox = false
located (some lat) (some lng) none = not (is_zero lat && is_zero lng)
located (some lat) (some lng) (some box) = not (is_zero lat && is_zero lng) && within lat lng box

-- At a time after 1900 and at most a day ahead, at a usable place.
abbrev pub usable : ℕ → Option BoundingBox → Incident → Bool
usable now bbox r =
    ltb epoch_floor r.occurred_at
    && leb r.occurred_at (now + 86_400)
    && located r.latitude r.longitude bbox

-- The first record of each id that has not been seen.
unfoldable pub firsts : List String → List Incident → List Incident
firsts seen [] = []
firsts seen (r ∷ rs) =
    let again = firsts seen rs in
    let others = firsts (r.source_incident_id ∷ seen) rs in
    if elem r.source_incident_id seen then again else r ∷ others

usable_located :
    (now : ℕ) (bbox : Option BoundingBox) (r : Incident) (lat lng : Option ℤ)
    → (location_reason lat lng bbox ≡ none) ⊎ (located lat lng bbox ≡ false)
unfolding location_reason
usable_located now bbox r none lng = inr refl
usable_located now bbox r (some lat) none = inr refl
usable_located now none r (some lat) (some lng) = ground arith
usable_located now (some box) r (some lat) (some lng) = ground arith

located_reason :
    (bbox : Option BoundingBox) (lat lng : Option ℤ)
    → located lat lng bbox ≡ false
    → (s : String) × (location_reason lat lng bbox ≡ some s)
unfolding location_reason
located_reason bbox none lng h = ("missing_coordinates", refl)
located_reason bbox (some lat) none h = ("missing_coordinates", refl)
located_reason none (some lat) (some lng) h = ("missing_coordinates", ground arith)
located_reason (some box) (some lat) (some lng) h = elim (Bool-cases (is_zero lat && is_zero lng)) [
  | inl nowhere ↦ ("missing_coordinates", ground arith)
  | inr placed ↦ ("coordinates_out_of_bounds", ground arith)
]

passes :
    (now : ℕ) (bbox : Option BoundingBox) (r : Incident)
    → usable now bbox r ≡ true
    → reject_reason now bbox r ≡ none
unfolding reject_reason
passes now bbox r h = elim (usable_located now bbox r r.latitude r.longitude) [
  | inl p ↦ ground arith
  | inr p ↦ absurd (ground arith)
]

refused :
    (now : ℕ) (bbox : Option BoundingBox) (r : Incident)
    → usable now bbox r ≡ false
    → (s : String) × (reject_reason now bbox r ≡ some s)
unfolding reject_reason
refused now bbox r h = elim (Bool-cases (leb r.occurred_at epoch_floor)) [
  | inl early ↦ ("missing_timestamp", rw early refl)
  | inr timed ↦ elim (Bool-cases (ltb (now + 86_400) r.occurred_at)) [
    | inl late ↦ ("future_timestamp", rw (timed, late) refl)
    | inr due ↦
        let (s, p) = located_reason bbox r.latitude r.longitude (ground arith) in
        (s, rw (timed, due) p)
  ]
]

abbrev rejections : Checked → ℕ
rejections c = sum_by (λ x. x.1) c.rejected_by_check

check_one-usable :
    (now : ℕ) (bbox : Option BoundingBox) (r : Incident) (c : Checked)
    → usable now bbox r ≡ true
    → check_one now bbox r c ≡ accept_one r c
unfolding check_one
check_one-usable now bbox r c h = ground (arith, passes now bbox r h)

-- A rejected record changes the counts and samples only.
check_one-refused :
    (now : ℕ) (bbox : Option BoundingBox) (r : Incident) (c : Checked)
    → usable now bbox r ≡ false
    → let c' = check_one now bbox r c in
      (c'.accepted ≡ c.accepted) × (c'.seen_ids ≡ c.seen_ids) × (rejections c' ≡ rejections c + 1)
unfolding check_one reject_one
check_one-refused now bbox r c h =
    let (s, p) = refused now bbox r h in ground (arith, p, total-add_one s c.rejected_by_check)

accept_one-firsts :
    (r : Incident) (rest : List Incident) (c : Checked)
    → (accept_one r c).accepted ++ firsts (accept_one r c).seen_ids rest
      ≡ c.accepted ++ firsts c.seen_ids (r ∷ rest)
unfolding accept_one firsts
accept_one-firsts r rest c = elim (Bool-cases (elem r.source_incident_id c.seen_ids)) [
  | inl again ↦ rw again refl
  | inr fresh ↦
      rw fresh (append_assoc c.accepted (r ∷ []) (firsts (r.source_incident_id ∷ c.seen_ids) rest))
]

check_all-accepted :
    (now : ℕ) (bbox : Option BoundingBox) (rs : List Incident) (c : Checked)
    → (check_all now bbox rs c).accepted
      ≡ c.accepted ++ firsts c.seen_ids (keep (usable now bbox) rs)
unfolding check_all firsts
check_all-accepted now bbox [] c = sym (append-nil c.accepted)
check_all-accepted now bbox (r ∷ rs) c = elim (Bool-cases (usable now bbox r)) [
  | inl ok ↦
      let rest = keep (usable now bbox) rs in
      rw ok (
        ap (λ x. (check_all now bbox rs x).accepted) (check_one-usable now bbox r c ok)
        ∙ check_all-accepted now bbox rs (accept_one r c)
        ∙ accept_one-firsts r rest c)
  | inr bad ↦
      let (a, s, n) = check_one-refused now bbox r c bad in
      rw bad (check_all-accepted now bbox rs (check_one now bbox r c) ∙ (rw (a, s) refl))
]

rejections-accept_one : (r : Incident) (c : Checked) → rejections (accept_one r c) ≡ rejections c
unfolding accept_one
rejections-accept_one r c = ground arith

check_all-rejections :
    (now : ℕ) (bbox : Option BoundingBox) (rs : List Incident) (c : Checked)
    → rejections (check_all now bbox rs c) + length (keep (usable now bbox) rs)
      ≡ rejections c + length rs
unfolding check_all
check_all-rejections now bbox [] c = refl
check_all-rejections now bbox (r ∷ rs) c = elim (Bool-cases (usable now bbox r)) [
  | inl ok ↦
      let same =
        ap (λ x. rejections (check_all now bbox rs x)) (check_one-usable now bbox r c ok) in
      rw ok (
        omega (
          arith,
          same,
          rejections-accept_one r c,
          check_all-rejections now bbox rs (accept_one r c),
        ))
  | inr bad ↦
      let (a, s, n) = check_one-refused now bbox r c bad in
      rw bad (omega (arith, n, check_all-rejections now bbox rs (check_one now bbox r c)))
]

-- Exactly the usable records reach silver, each id once by its first record, in the order of the
-- pull; and every record that is not usable is counted as rejected.
pub validate_records-accepted :
    (now : ℕ) (bbox : Option BoundingBox) (chunks : Dict String ℕ) (doubled_median : Option ℕ)
    (records : List Incident)
    → let result = validate_records now bbox chunks doubled_median records in
      (result.accepted ≡ firsts [] (keep (usable now bbox) records))
      × (result.rejected + length (keep (usable now bbox) records) ≡ length records)
unfolding validate_records
validate_records-accepted now bbox chunks doubled_median records = (
  check_all-accepted now bbox records nothing_checked,
  check_all-rejections now bbox records nothing_checked ∙ (omega arith),
)
