-- ===== src/Etl/Promote/Rows.antt =====
-- safety/etl/transform.py, `_PROMOTE_SQL`: the rows of an incident after upserts.
use crime_prevention_and_per.Prelude.{
  Bool-cases, length, keep, All, All-zip, All-map, ◌≤◌, ◌≡◌, refl, ◌∙◌, inl, inr, true, false, List,
  [], ◌∷◌, arith, eq_iff,
}
use crime_prevention_and_per.Etl.Promote.{Staged, Stored, same_key, same_row, upsert, upsert_all}

-- the rows of an incident, of any year, and the rows with a row's primary key
abbrev pub rows_of : Staged → List Stored → List Stored
rows_of s silver = keep (λ i. same_key i.incident s) silver

abbrev pub rows_at : Stored → List Stored → List Stored
rows_at r silver = keep (λ i. same_row i r) silver

-- The primary key of silver.incident holds.
abbrev pub HasKey : List Stored → Type 0
HasKey silver = (r : Stored) → length (rows_at r silver) ≤ 1

-- No incident is staged twice.
abbrev pub AreDistinct : List Staged → Type 0
AreDistinct [] = Unit
AreDistinct (s ∷ staged) = All (λ t. same_key s t ≡ false) staged × AreDistinct staged

same_key_refl : (s : Staged) → same_key s s ≡ true
same_key_refl s =
    ground (arith, eq_iff s.source_id s.source_id, eq_iff s.incident_key s.incident_key)

pub same_key_sym : (s t : Staged) → same_key s t ≡ same_key t s
same_key_sym s t = ground (
  arith,
  eq_iff s.source_id t.source_id,
  eq_iff t.source_id s.source_id,
  eq_iff s.incident_key t.incident_key,
  eq_iff t.incident_key s.incident_key,
)

pub same_key_trans : (s t u : Staged) → same_key s t ≡ true → same_key s u ≡ same_key t u
same_key_trans s t u h =
    ground (arith, eq_iff s.source_id t.source_id, eq_iff s.incident_key t.incident_key)

-- An upsert leaves the rows of other incidents, and of other keys, as they were.
rows_of-upsert :
    (t : Staged) (r : Stored) (silver : List Stored)
    → same_key r.incident t ≡ false
    → rows_of t (upsert r silver) ≡ rows_of t silver
unfolding upsert
rows_of-upsert t r [] h = ground arith
rows_of-upsert t r (i ∷ silver) h =
    ground (arith, rows_of-upsert t r silver h, same_key_trans i.incident r.incident t)

rows_at-upsert :
    (q r : Stored) (silver : List Stored)
    → same_key r.incident q.incident ≡ false
    → rows_at q (upsert r silver) ≡ rows_at q silver
unfolding upsert
rows_at-upsert q r [] h = ground arith
rows_at-upsert q r (i ∷ silver) h =
    ground (arith, rows_at-upsert q r silver h, same_key_trans i.incident r.incident q.incident)

none_left {ℓ} : {A : Type ℓ} (xs : List A) → length xs ≤ 0 → xs ≡ []
none_left [] h = refl
none_left (x ∷ xs) h = absurd (omega arith)

rows_at-upsert_self :
    (r : Stored) (silver : List Stored)
    → length (rows_at r silver) ≤ 1
    → rows_at r (upsert r silver) ≡ r ∷ []
unfolding upsert
rows_at-upsert_self r [] h = ground (arith, same_key_refl r.incident)
rows_at-upsert_self r (i ∷ silver) h = elim (Bool-cases (same_row i r)) [
  | inl here ↦ ground (arith, same_key_refl r.incident, none_left (rows_at r silver) (ground arith))
  | inr there ↦ ground (arith, rows_at-upsert_self r silver)
]

-- The rows of one statement have distinct incidents.
abbrev pub AreApart : List Stored → Type 0
AreApart [] = Unit
AreApart (r ∷ rows) = All (λ q. same_key r.incident q.incident ≡ false) rows × AreApart rows

pub rows_of-upsert_all :
    (t : Staged) (rows silver : List Stored)
    → All (λ r. same_key r.incident t ≡ false) rows
    → rows_of t (upsert_all rows silver) ≡ rows_of t silver
unfolding upsert_all
rows_of-upsert_all t [] silver h = refl
rows_of-upsert_all t (r ∷ rows) silver h =
    rows_of-upsert_all t rows (upsert r silver) h.1 ∙ rows_of-upsert t r silver h.0

rows_at-upsert_all :
    (q : Stored) (rows silver : List Stored)
    → All (λ r. same_key r.incident q.incident ≡ false) rows
    → rows_at q (upsert_all rows silver) ≡ rows_at q silver
unfolding upsert_all
rows_at-upsert_all q [] silver h = refl
rows_at-upsert_all q (r ∷ rows) silver h =
    rows_at-upsert_all q rows (upsert r silver) h.1 ∙ rows_at-upsert q r silver h.0

pub upserted :
    (rows silver : List Stored)
    → AreApart rows
    → All (λ r. length (rows_at r silver) ≤ 1) rows
    → All (λ r. rows_at r (upsert_all rows silver) ≡ r ∷ []) rows
unfolding upsert_all
upserted [] silver apart keyed = tt
upserted (r ∷ rows) silver apart keyed = (
  rows_at-upsert_all r rows (upsert r silver)
        (All-map _ _ rows (λ q p. same_key_sym q.incident r.incident ∙ p) apart.0)
      ∙ rows_at-upsert_self r silver keyed.0,
  upserted rows (upsert r silver) apart.1
      (All-zip _ _ _ rows (λ q p l. rw (rows_at-upsert q r silver p) l) apart.0 keyed.1),
)
