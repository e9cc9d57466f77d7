-- ===== src/OrderedDict/Order.antt =====
-- Where an entry stands in the order of use: what is evicted from the front is what was used least
-- recently.
use crime_prevention_and_per.Prelude.{
  ltb, leb, if◌then◌else◌, Bool-cases, length, drop, ℕ, suc, ◌+◌, ◌-◌, ◌≤◌, ◌≡◌, refl, inl, inr,
  List, [], ◌∷◌, arith,
}

module _ {ℓ} {A : Type ℓ} where
  -- `while len(d) >= size: d.popitem(last=False)`, with the number of entries popped
  unfoldable pub make_room : ℕ → List A → List A × ℕ
  make_room size [] = ([], 0)
  make_room size (x ∷ d) =
      let rest = make_room size d in
      if leb size (suc (length d)) then (rest.0, rest.1 + 1) else (x ∷ d, 0)

  -- `while len(d) > size: d.popitem(last=False)`
  unfoldable pub trim : ℕ → List A → List A
  trim size [] = []
  trim size (x ∷ d) = let rest = trim size d in if ltb size (suc (length d)) then rest else x ∷ d

  pub trim-drop : (size : ℕ) (d : List A) → trim size d ≡ drop (length d - size) d
  unfolding trim
  trim-drop size [] = ground arith
  trim-drop size (x ∷ d) = elim (Bool-cases (ltb size (suc (length d)))) [
    | inl p ↦ rw p (
        let e : suc (length d) - size ≡ suc (length d - size) = ground arith in
        rw (e, trim-drop size d) refl)
    | inr p ↦ rw p (let e : suc (length d) - size ≡ 0 = ground arith in rw e refl)
  ]

  pub length-trim-le : (size : ℕ) (d : List A) → length (trim size d) ≤ size
  unfolding trim
  length-trim-le size [] = omega arith
  length-trim-le size (x ∷ d) = ground (arith, length-trim-le size d)

  -- The entries kept are the most recent ones, and the count is of the entries dropped.
  pub make_room_lem :
      (size : ℕ) (d : List A) → (make_room (suc size) d).0 ≡ drop ((make_room (suc size) d).1) d
  unfolding make_room
  make_room_lem size [] = refl
  make_room_lem size (x ∷ d) = elim (Bool-cases (leb (suc size) (suc (length d)))) [
    | inl p ↦ rw p (
        let e : (make_room (suc size) d).1 + 1 ≡ suc ((make_room (suc size) d).1) = omega arith in
        rw e (make_room_lem size d))
    | inr p ↦ rw p refl
  ]

  pub make_room-count : (size : ℕ) (d : List A) → (make_room (suc size) d).1 ≡ length d - size
  unfolding make_room
  make_room-count size [] = omega arith
  make_room-count size (x ∷ d) = ground (arith, make_room-count size d)

  pub length-make_room : (size : ℕ) (d : List A) → length (make_room (suc size) d).0 ≤ size
  unfolding make_room
  length-make_room size [] = omega arith
  length-make_room size (x ∷ d) = ground (arith, length-make_room size d)
