-- ===== src/Etl/Pending/Marks.antt =====
-- What a mark covers stays covered until gold is refreshed.
use crime_prevention_and_per.Prelude.{
  if◌then◌else◌, Bool-cases, Option-cases, All, String_eq, ◌==◌, ℕ, ◌≤◌, String, ◌≡◌, refl, sym,
  subst, inl, inr, Option, none, some, List, [], ◌∷◌, arith, eq_iff,
}
use crime_prevention_and_per.OrderedDict.{same_refl, lookup-put, lookup}
use crime_prevention_and_per.Etl.Pending.{Marks, merge, mark, pending_of}

-- The change from a day on, or anywhere, is pending.
abbrev pub Covers : Option (Option ℕ) → Option ℕ → Type 0
Covers pending none = pending ≡ some none
Covers none (some day) = ⊥
Covers (some none) (some day) = Unit
Covers (some (some from)) (some day) = from ≤ day

unfoldable pub mark_all : Marks → List (String × Option ℕ) → Marks
mark_all m [] = m
mark_all m ((city, from) ∷ rest) = mark_all (mark m city from) rest

joined : Option (Option ℕ) → Option ℕ → Option ℕ
unfolding merge
joined none from = from
joined (some old) from = merge old from

lookup-mark :
    (m : Marks) (city other : String) (from : Option ℕ)
    → lookup other (mark m city from)
      ≡ (if city == other then some (joined (lookup city m) from) else lookup other m)
unfolding mark joined
lookup-mark m city other from = elim (Option-cases (lookup city m)) [
  | inl p ↦ ground (arith, lookup-put city other from m)
  | inr (old, p) ↦ ground (arith, lookup-put city other (merge old from) m)
]

Covers-joined_new : (o : Option (Option ℕ)) (from : Option ℕ) → Covers (some (joined o from)) from
unfolding joined merge
Covers-joined_new none none = refl
Covers-joined_new none (some d) = omega arith
Covers-joined_new (some none) none = refl
Covers-joined_new (some none) (some d) = tt
Covers-joined_new (some (some old)) none = refl
Covers-joined_new (some (some old)) (some d) = omega arith

Covers-joined_old :
    (o : Option (Option ℕ)) (from day : Option ℕ) → Covers o day → Covers (some (joined o from)) day
unfolding joined merge
Covers-joined_old none from none h = absurd (cc)
Covers-joined_old none from (some d) h = absurd h
Covers-joined_old (some none) from none h = refl
Covers-joined_old (some none) from (some d) h = tt
Covers-joined_old (some (some old)) from none h = absurd (cc)
Covers-joined_old (some (some old)) none (some d) h = tt
Covers-joined_old (some (some old)) (some new) (some d) h = omega arith

pub mark-Covers :
    (m : Marks) (city : String) (from : Option ℕ) → Covers (pending_of (mark m city from) city) from
mark-Covers m city from =
    rw (lookup-mark m city city from) (rw (same_refl city) (Covers-joined_new (lookup city m) from))

keeps-Covers :
    (m : Marks) (city other : String) (from day : Option ℕ)
    → Covers (pending_of m other) day
    → Covers (pending_of (mark m city from) other) day
keeps-Covers m city other from day h = elim (Bool-cases (city == other)) [
  | inl same ↦ rw (lookup-mark m city other from) (
      rw same (
        Covers-joined_old (lookup city m) from day
          (subst (λ c. Covers (lookup c m) day) (sym ((eq_iff city other).0 same)) h)))
  | inr apart ↦ rw (lookup-mark m city other from) (rw apart h)
]

mark_all-keeps :
    (m : Marks) (xs : List (String × Option ℕ)) (city : String) (day : Option ℕ)
    → Covers (pending_of m city) day
    → Covers (pending_of (mark_all m xs) city) day
unfolding mark_all
mark_all-keeps m [] city day h = h
mark_all-keeps m ((c, from) ∷ xs) city day h =
    mark_all-keeps (mark m c from) xs city day (keeps-Covers m c city from day h)

-- Whatever is marked, of any cities and in any order: for each of the marks, what is pending of its
-- city starts no later, and is a full rebuild if the mark had no date. A later dated mark never
-- narrows it.
pub mark_all-Covers :
    (m : Marks) (xs : List (String × Option ℕ))
    → All (λ x. Covers (pending_of (mark_all m xs) x.0) x.1) xs
unfolding mark_all
mark_all-Covers m [] = tt
mark_all-Covers m ((city, from) ∷ xs) = (
  mark_all-keeps (mark m city from) xs city from (mark-Covers m city from),
  mark_all-Covers (mark m city from) xs,
)
