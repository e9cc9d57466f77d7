-- ===== src/Etl/Promote/Crosswalk.antt =====
-- safety/etl/transform.py, the lateral join of `_PROMOTE_SQL`: which row classifies an incident.
use crime_prevention_and_per.Prelude.{
  Bool-cases, keep, any, all, All, String, ◌≡◌, refl, sym, ◌∙◌, ◌⊎◌, inl, inr, Bool, true, false,
  not, ◌||◌, Option, none, some, List, [], ◌∷◌, arith,
}
use mathlib.Core.List.{Memᴰ}
use crime_prevention_and_per.Etl.Promote.Applicable.{
  Outranks, ranked, Applies, match-Applies, Applies-match,
}
use crime_prevention_and_per.Prelude.Sorting.{insert, sorted, All-sorted}
use crime_prevention_and_per.Etl.Promote.{
  Staged, CrosswalkRow, is_match, ranks_before, first_of, crosswalk_of,
}

all_of :
    (P : CrosswalkRow → Type 0) (rows : List CrosswalkRow)
    → ((c : CrosswalkRow) → Memᴰ c rows → P c)
    → All P rows
all_of P [] h = tt
all_of P (c ∷ rows) h = (h c (Memᴰ.head refl), all_of P rows (λ d m. h d (Memᴰ.tail m)))

All-keep :
    (P : CrosswalkRow → Type 0) (p : CrosswalkRow → Bool) (rows : List CrosswalkRow)
    → All P rows
    → All P (keep p rows)
All-keep P p [] h = tt
All-keep P p (c ∷ rows) h = elim (Bool-cases (p c)) [
  | inl kept ↦ rw kept (h.0, All-keep P p rows h.1)
  | inr out ↦ rw out (All-keep P p rows h.1)
]

all_at :
    (p : CrosswalkRow → Bool) (rows : List CrosswalkRow) (c : CrosswalkRow)
    → all p rows ≡ true
    → Memᴰ c rows
    → p c ≡ true
all_at p [] c h m = elim m [ ]
all_at p (x ∷ rows) c h (Memᴰ.head e) = rw e (ground (arith, h))
all_at p (x ∷ rows) c h (Memᴰ.tail m) = all_at p rows c (ground (arith, h)) m

none_at :
    (p : CrosswalkRow → Bool) (rows : List CrosswalkRow) (c : CrosswalkRow)
    → any p rows ≡ false
    → Memᴰ c rows
    → p c ≡ false
none_at p [] c h m = elim m [ ]
none_at p (x ∷ rows) c h (Memᴰ.head e) = rw e (ground (arith, h))
none_at p (x ∷ rows) c h (Memᴰ.tail m) = none_at p rows c (ground (arith, h)) m

module _ (text_key : String → String) (version : String) where
  abbrev le : CrosswalkRow → CrosswalkRow → Bool
  le = ranks_before text_key version

  le_total : (a b : CrosswalkRow) → le a b ≡ false → le b a ≡ true
  le_total a b h = ground arith

  le_trans : (a b c : CrosswalkRow) → le a b ≡ true → le b c ≡ true → le a c ≡ true
  le_trans a b c h k = ground arith

  le_refl : (a : CrosswalkRow) → le a a ≡ true
  le_refl a = ground arith

  all_before :
      (a b : CrosswalkRow) (rows : List CrosswalkRow)
      → le a b ≡ true
      → all (le b) rows ≡ true
      → all (le a) rows ≡ true
  all_before a b [] h k = refl
  all_before a b (c ∷ rows) h k = ground (arith, all_before a b rows, le_trans a b c)

  -- The first of the sorted rows ranks before all rows.
  abbrev Leads : List CrosswalkRow → List CrosswalkRow → Type 0
  Leads rows [] = rows ≡ []
  Leads rows (c ∷ _) = all (le c) rows ≡ true

  insert-Leads :
      (x : CrosswalkRow) (rows ordered : List CrosswalkRow)
      → Leads rows ordered
      → Leads (x ∷ rows) (insert le x ordered)
  unfolding insert
  insert-Leads x rows [] h = let itself = le_refl x in rw h (rw itself refl)
  insert-Leads x rows (c ∷ ordered) h = elim (Bool-cases (le x c)) [
    | inl first ↦ let itself = le_refl x in rw (first, itself) (all_before x c rows first h)
    | inr later ↦ let earlier = le_total x c later in rw (later, earlier) h
  ]

  sorted-Leads : (rows : List CrosswalkRow) → Leads rows (sorted le rows)
  unfolding sorted
  sorted-Leads [] = refl
  sorted-Leads (x ∷ rows) = insert-Leads x rows (sorted le rows) (sorted-Leads rows)

  all-keep :
      (p r : CrosswalkRow → Bool) (rows : List CrosswalkRow)
      → all r (keep p rows) ≡ all (λ c. not (p c) || r c) rows
  all-keep p r [] = refl
  all-keep p r (c ∷ rows) = ground (arith, all-keep p r rows)

  all_kept :
      (p : CrosswalkRow → Bool) (rows : List CrosswalkRow) → All (λ c. p c ≡ true) (keep p rows)
  all_kept p [] = tt
  all_kept p (c ∷ rows) = elim (Bool-cases (p c)) [
    | inl kept ↦ rw kept (kept, all_kept p rows)
    | inr out ↦ rw out (all_kept p rows)
  ]

  none_kept :
      (p : CrosswalkRow → Bool) (rows : List CrosswalkRow) → keep p rows ≡ [] → any p rows ≡ false
  none_kept p [] h = refl
  none_kept p (c ∷ rows) h = elim (Bool-cases (p c)) [
    | inl kept ↦ absurd (cc (sym h))
    | inr out ↦ ground (arith, none_kept p rows)
  ]

  -- What the sorted join answers for a staged record.
  abbrev IsFirst : Staged → List CrosswalkRow → Option CrosswalkRow → Type 0
  IsFirst s crosswalk none = any (is_match text_key version s) crosswalk ≡ false
  IsFirst s crosswalk (some c) =
      (is_match text_key version s c ≡ true)
      × (all (λ d. not (is_match text_key version s d) || ranks_before text_key version c d)
            crosswalk
          ≡ true)

  first_of-IsFirst :
      (s : Staged) (crosswalk ordered : List CrosswalkRow)
      → Leads (keep (is_match text_key version s) crosswalk) ordered
      → All (λ c. is_match text_key version s c ≡ true) ordered
      → IsFirst s crosswalk (first_of text_key version ordered)
  first_of-IsFirst s crosswalk [] leads matching = none_kept _ crosswalk leads
  first_of-IsFirst s crosswalk (c ∷ ordered) leads matching =
      (matching.0, sym (all-keep _ (le c) crosswalk) ∙ leads)

  -- The crosswalk's answer for an incident.
  abbrev pub Chooses : Staged → List CrosswalkRow → Option CrosswalkRow → Type 0
  Chooses s crosswalk none = All (λ d. ¬ (Applies text_key version s d)) crosswalk
  Chooses s crosswalk (some c) =
      Memᴰ c crosswalk
      × Applies text_key version s c
      × All (λ d. (¬ (Applies text_key version s d)) ⊎ Outranks c d) crosswalk

  abbrev Among : List CrosswalkRow → Option CrosswalkRow → Type 0
  Among rows none = Unit
  Among rows (some c) = Memᴰ c rows

  Among-first_of :
      (rows ordered : List CrosswalkRow)
      → All (λ c. Memᴰ c rows) ordered
      → Among rows (first_of text_key version ordered)
  Among-first_of rows [] h = tt
  Among-first_of rows (c ∷ ordered) h = h.0

  from_ordered :
      (s : Staged) (crosswalk : List CrosswalkRow) (o : Option CrosswalkRow)
      → IsFirst s crosswalk o
      → Among crosswalk o
      → Chooses s crosswalk o
  from_ordered s crosswalk none h among =
      all_of (λ d. ¬ (Applies text_key version s d)) crosswalk
        (λ d m. Applies-match text_key version s d (none_at _ crosswalk d h m))
  from_ordered s crosswalk (some c) h among = (
    among,
    match-Applies text_key version s c h.0,
    all_of _ crosswalk (λ d m. elim (Bool-cases (is_match text_key version s d)) [
      | inl matching ↦
          inr (ranked text_key version c d (ground (arith, all_at _ crosswalk d h.1 m)))
      | inr other ↦ inl (Applies-match text_key version s d other)
    ]),
  )

  -- An incident is classified by a row of the crosswalk that applies to it, of its source,
  -- version and code, for its very text or for any text, and in effect on its date; if it is for
  -- any text, no row that applies is for the very text, and no row that applies and is of its kind
  -- is in effect from a later date. The incident is left unmapped only if no row applies.
  pub crosswalk_of-Chooses :
      (crosswalk : List CrosswalkRow) (s : Staged)
      → Chooses s crosswalk (crosswalk_of text_key version crosswalk s)
  unfolding crosswalk_of
  crosswalk_of-Chooses crosswalk s =
      let matching = keep (is_match text_key version s) crosswalk in
      from_ordered s crosswalk _
        (first_of-IsFirst s crosswalk (sorted le matching) (sorted-Leads matching)
          (All-sorted le _ matching (all_kept (is_match text_key version s) crosswalk)))
        (Among-first_of crosswalk (sorted le matching) (
          All-sorted le _ matching (
            All-keep _ (is_match text_key version s) crosswalk
              (all_of (λ c. Memᴰ c crosswalk) crosswalk (λ c m. m)))))
