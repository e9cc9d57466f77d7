-- ===== src/Etl/Validate/Ids.antt =====
-- safety/etl/validate.py, `validate_records`: no incident is accepted twice.
use crime_prevention_and_per.Prelude.{
  Bool-cases, keep, All, String_eq, ◌==◌, elem, ℕ, String, ◌≡◌, sym, subst, inl, inr, true, false,
  Option, List, [], ◌∷◌, arith, eq_iff,
}
use crime_prevention_and_per.OrderedDict.{Dict}
use crime_prevention_and_per.Etl.Validate.{Incident, BoundingBox}
use crime_prevention_and_per.Etl.Validate.Result.{validate_records}
use crime_prevention_and_per.Etl.Validate.Accepted.{usable, firsts, validate_records-accepted}

abbrev pub HaveIds : List Incident → Type 0
HaveIds [] = Unit
HaveIds (r ∷ rs) = All (λ q. (r.source_incident_id == q.source_incident_id) ≡ false) rs × HaveIds rs

clash :
    (k id : String) (seen : List String) → k ≡ id → elem k seen ≡ true → elem id seen ≡ false → ⊥
clash k id seen e h fresh = cc

unseen_differs :
    (k id : String) (seen : List String)
    → elem k seen ≡ true
    → elem id seen ≡ false
    → (k == id) ≡ false
unseen_differs k id seen h fresh = elim (Bool-cases (k == id)) [
  | inl same ↦ absurd (clash k id seen ((eq_iff k id).0 same) h fresh)
  | inr p ↦ p
]

firsts_unseen :
    (k : String) (seen : List String) (rs : List Incident)
    → elem k seen ≡ true
    → All (λ q. (k == q.source_incident_id) ≡ false) (firsts seen rs)
unfolding firsts
firsts_unseen k seen [] h = tt
firsts_unseen k seen (r ∷ rs) h = elim (Bool-cases (elem r.source_incident_id seen)) [
  | inl again ↦ rw again (firsts_unseen k seen rs h)
  | inr fresh ↦ rw fresh (
    unseen_differs k r.source_incident_id seen h fresh,
    firsts_unseen k (r.source_incident_id ∷ seen) rs (ground arith),
  )
]

firsts-HaveIds : (seen : List String) (rs : List Incident) → HaveIds (firsts seen rs)
unfolding firsts
firsts-HaveIds seen [] = tt
firsts-HaveIds seen (r ∷ rs) = elim (Bool-cases (elem r.source_incident_id seen)) [
  | inl again ↦ rw again (firsts-HaveIds seen rs)
  | inr fresh ↦ rw fresh (
    firsts_unseen r.source_incident_id (r.source_incident_id ∷ seen) rs
        (ground (arith, eq_iff r.source_incident_id r.source_incident_id)),
    firsts-HaveIds (r.source_incident_id ∷ seen) rs,
  )
]

pub accepted-HaveIds :
    (now : ℕ) (bbox : Option BoundingBox) (chunks : Dict String ℕ) (median : Option ℕ)
    (records : List Incident)
    → HaveIds (validate_records now bbox chunks median records).accepted
accepted-HaveIds now bbox chunks median records =
    subst HaveIds (sym (validate_records-accepted now bbox chunks median records).0)
      (firsts-HaveIds [] (keep (usable now bbox) records))
