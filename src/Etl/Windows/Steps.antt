-- ===== src/Etl/Windows/Steps.antt =====
-- Each window of a city reaches further back than the one before.
use crime_prevention_and_per.Prelude.{
  ltb, leb, Bool-cases, ℕ, ◌-◌, ◌*◌, ◌≤◌, ◌<◌, max, ◌≡◌, refl, ◌⊎◌, inl, inr, false, Option, none,
  some, List, [], ◌∷◌, arith,
}
use crime_prevention_and_per.Etl.Windows.{
  Date, ordinal, Span, Window, window_candidates, adds_little, resolve_from, resolve_windows,
}

-- A window adds at least a day to one that starts at `previous`, and a partial one at least a
-- quarter of what a whole one would.
abbrev pub Adds : Option ℕ → Window → Type 0
Adds none w = Unit
Adds (some previous) w =
    (w.data_start < previous)
    × ((w.partial ≡ false) ⊎ (previous - w.start ≤ 4 * (previous - w.data_start)))

-- A window of a city with data from `floor` on, up to `anchor`.
pub record IsWindow (floor anchor : ℕ) (w : Window) : Type 0 where
  pub anchored : w.end ≡ anchor
  pub begins : w.data_start ≡ max w.start floor
  pub flagged : w.partial ≡ ltb w.start floor

-- One window after another, each adding something, and only the last of them reaches the floor.
abbrev pub Widening : ℕ → ℕ → Option ℕ → List Window → Type 0
Widening floor anchor previous [] = Unit
Widening floor anchor previous (w ∷ ws) =
    IsWindow floor anchor w
    × Adds previous w
    × ((ws ≡ []) ⊎ (floor < w.start))
    × Widening floor anchor (some w.start) ws

window-Adds :
    (previous : Option ℕ) (floor anchor start : ℕ) (name : Span)
    → adds_little previous floor start ≡ false
    → Adds previous (record {
      name = name;
      start = start;
      end = anchor;
      data_start = max start floor;
      partial = ltb start floor;
    })
window-Adds none floor anchor start name h = tt
window-Adds (some p) floor anchor start name h = ground arith

built-IsWindow :
    (floor anchor start : ℕ) (name : Span)
    → IsWindow floor anchor (record {
      name = name;
      start = start;
      end = anchor;
      data_start = max start floor;
      partial = ltb start floor;
    })
built-IsWindow floor anchor start name = record { anchored = refl; begins = refl; flagged = refl }

pub resolve_from-Widening :
    (floor anchor : ℕ) (previous : Option ℕ) (candidates : List (Span × ℕ))
    → Widening floor anchor previous (resolve_from floor anchor previous candidates)
unfolding resolve_from
resolve_from-Widening floor anchor previous [] = tt
resolve_from-Widening floor anchor previous ((name, start) ∷ candidates) =
    let here = built-IsWindow floor anchor start name in
    elim (Bool-cases (adds_little previous floor start)) [
      | inl little ↦ rw little tt
      | inr enough ↦
          let a = window-Adds previous floor anchor start name enough in
          elim (Bool-cases (leb start floor)) [
            | inl reached ↦ rw (enough, reached) (here, a, inl refl, tt)
            | inr above ↦
                rw (enough, above)
                  (
                    here,
                    a,
                    inr (ground arith),
                    resolve_from-Widening floor anchor (some start) candidates,
                  )
          ]
    ]

-- Every window of a city ends at its newest date and begins where its data do; each one reaches at
-- least a day further back than the one before, and a partial one a quarter of a full step; and
-- none follows a window that reaches the oldest date. So it is for every anchor and every floor.
pub resolve_windows-Widening :
    (anchor : Date) (floor : ℕ)
    → Widening floor (ordinal anchor) none (resolve_windows anchor (some floor))
unfolding resolve_windows
resolve_windows-Widening anchor floor =
    resolve_from-Widening floor (ordinal anchor) none (window_candidates anchor)
