-- ===== src/Etl/Promote/Applicable.antt =====
-- safety/etl/transform.py, the lateral join of `_PROMOTE_SQL`: when a row of the crosswalk applies to
-- an incident, and which of two that do comes first.
use crime_prevention_and_per.Prelude.{
  ltb, Bool-cases, String_eq, ◌==◌, ℕ, ◌≤◌, ◌<◌, String, ◌≡◌, refl, ap, ◌≢◌, ◌⊎◌, inl, inr, true,
  false, ◌||◌, Option, none, some, arith, eq_iff,
}
use crime_prevention_and_per.Etl.Promote.{
  Staged, CrosswalkRow, is_some_eq, key_of, is_match, ranks_before,
}

-- Before the day a row goes out of effect, if there is one.
abbrev pub IsInEffect : ℕ → Option ℕ → Type 0
IsInEffect day none = Unit
IsInEffect day (some to) = day < to

-- A row for the very text comes before one for any text; of two of one kind, the one in effect
-- from the later date, or from the same date, comes first.
abbrev pub Outranks : CrosswalkRow → CrosswalkRow → Type 0
Outranks c d =
    ((c.raw_offense_text_key ≢ "*") × (d.raw_offense_text_key ≡ "*"))
    ⊎ ((c.raw_offense_text_key ≢ "*")
        × (d.raw_offense_text_key ≢ "*")
        × (d.effective_from ≤ c.effective_from))
    ⊎ ((c.raw_offense_text_key ≡ "*")
        × (d.raw_offense_text_key ≡ "*")
        × (d.effective_from ≤ c.effective_from))

not_any :
    (c : CrosswalkRow) → (c.raw_offense_text_key == "*") ≡ false → c.raw_offense_text_key ≢ "*"
not_any c h e = absurd (cc ((eq_iff c.raw_offense_text_key "*").1 e))

pub ranked :
    (text_key : String → String) (version : String) (c d : CrosswalkRow)
    → ranks_before text_key version c d ≡ true
    → Outranks c d
ranked text_key version c d h = elim (Bool-cases (c.raw_offense_text_key == "*")) [
  | inl any_c ↦ inr (
      inr (
        (eq_iff c.raw_offense_text_key "*").0 any_c,
        (eq_iff d.raw_offense_text_key "*").0 (ground (arith, h)),
        ground (arith, h),
      ))
  | inr own_c ↦ elim (Bool-cases (d.raw_offense_text_key == "*")) [
    | inl any_d ↦ inl (not_any c own_c, (eq_iff d.raw_offense_text_key "*").0 any_d)
    | inr own_d ↦ inr (inl (not_any c own_c, not_any d own_d, ground (arith, h)))
  ]
]

module _ (text_key : String → String) (version : String) where
  -- The normalised text is the key's.
  abbrev pub HasText : String → Option String → Type 0
  HasText key none = ⊥
  HasText key (some text) = text_key text ≡ key

  -- A row is for an incident: of its source, of the version asked for, with its code, with its text
  -- or for any text, and in effect on its date.
  abbrev pub Applies : Staged → CrosswalkRow → Type 0
  Applies s c =
      (c.source_id ≡ s.source_id)
      × (c.crosswalk_version ≡ version)
      × (s.raw_offense_code ≡ some c.raw_offense_code)
      × (HasText c.raw_offense_text_key s.raw_offense_text ⊎ (c.raw_offense_text_key ≡ "*"))
      × (c.effective_from ≤ s.local_date)
      × IsInEffect s.local_date c.effective_to

  is_code : (o : Option String) (code : String) → is_some_eq o code ≡ true → o ≡ some code
  is_code none code h = absurd (cc)
  is_code (some s) code h = ap some ((eq_iff s code).0 h)

  is_text :
      (o : Option String) (key : String)
      → is_some_eq (key_of text_key version o) key || key == "*" ≡ true
      → HasText key o ⊎ (key ≡ "*")
  is_text none key h = inr ((eq_iff key "*").0 h)
  is_text (some text) key h = elim (Bool-cases (text_key text == key)) [
    | inl own ↦ inl ((eq_iff (text_key text) key).0 own)
    | inr other ↦ inr ((eq_iff key "*").0 (ground (arith, h)))
  ]

  in_effect :
      (day : ℕ) (to : Option ℕ)
      → elim to [ none ↦ true | some to ↦ ltb day to ] ≡ true
      → IsInEffect day to
  in_effect day none h = tt
  in_effect day (some to) h = ground (arith, h)

  pub match-Applies :
      (s : Staged) (c : CrosswalkRow) → is_match text_key version s c ≡ true → Applies s c
  unfolding is_match
  match-Applies s c h = (
    (eq_iff c.source_id s.source_id).0 (ground (arith, h)),
    (eq_iff c.crosswalk_version version).0 (ground (arith, h)),
    is_code s.raw_offense_code c.raw_offense_code (ground (arith, h)),
    is_text s.raw_offense_text c.raw_offense_text_key (ground (arith, h)),
    ground (arith, h),
    in_effect s.local_date c.effective_to (ground (arith, h)),
  )

  code_is : (o : Option String) (code : String) → o ≡ some code → is_some_eq o code ≡ true
  code_is o code h = rw h ((eq_iff code code).1 refl)

  text_is :
      (o : Option String) (key : String)
      → HasText key o ⊎ (key ≡ "*")
      → is_some_eq (key_of text_key version o) key || key == "*" ≡ true
  text_is none key (inr e) = (eq_iff key "*").1 e
  text_is none key (inl h) = absurd h
  text_is (some text) key (inl h) = let own = (eq_iff (text_key text) key).1 h in ground arith
  text_is (some text) key (inr e) = let any_text = (eq_iff key "*").1 e in ground arith

  is_in_effect :
      (day : ℕ) (to : Option ℕ)
      → IsInEffect day to
      → elim to [ none ↦ true | some to ↦ ltb day to ] ≡ true
  is_in_effect day none h = refl
  is_in_effect day (some to) h = ground (arith, h)

  pub Applies-match :
      (s : Staged) (c : CrosswalkRow) → is_match text_key version s c ≡ false → ¬ (Applies s c)
  unfolding is_match
  Applies-match s c h k =
      let source = (eq_iff c.source_id s.source_id).1 k.0 in
      let of_version = (eq_iff c.crosswalk_version version).1 k.1 in
      let code = code_is s.raw_offense_code c.raw_offense_code k.2 in
      let text = text_is s.raw_offense_text c.raw_offense_text_key k.3 in
      let day = k.4 in let effect = is_in_effect s.local_date c.effective_to k.5 in ground arith
