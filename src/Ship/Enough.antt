-- ===== src/Ship/Enough.antt =====
-- The loop of `syncOnce` in internal/ship/ship.go ends.
use buckle.Base.{
  ℕ, zero, suc, ◌≤◌, ◌<◌, true, false, List, [], ◌∷◌, ◌≡◌, ◌≢◌, ◌⊎◌, arith, Bool-cases, inl, inr,
  length, ltb, take,
}
use buckle.Base.Int.{ℤ, ltb_ℤ}
use buckle.Wire.{Row, Batch, max_rows}
use buckle.Ship.{
  Reply, Checked, good, refused, failed, Attempt, unfinished, Options, newer, changes_since,
  last_rev, fell_behind, settle, sync_loop,
}

-- Some row of the list has the property.
abbrev AnyRow : (Row → Type 0) → List Row → Type 0
AnyRow P [] = ⊥
AnyRow P (r ∷ rs) = P r ⊎ AnyRow P rs

-- A row that is newer than the cursor `c` and not newer than `d`.
abbrev Between : ℤ → ℤ → Row → Type 0
Between c d r = (ltb_ℤ c r.row_rev ≡ true) × (ltb_ℤ d r.row_rev ≡ false)

last_rev-AnyRow :
    (d : ℤ) (r : Row) (rs : List Row)
    → ltb_ℤ d (last_rev r.row_rev rs) ≡ false
    → AnyRow (λ x. ltb_ℤ d x.row_rev ≡ false) (r ∷ rs)
last_rev-AnyRow d r [] h = inl h
last_rev-AnyRow d r (x ∷ rs) h = inr (last_rev-AnyRow d x rs h)

take-AnyRow : (P : Row → Type 0) (n : ℕ) (rs : List Row) → AnyRow P (take n rs) → AnyRow P rs
take-AnyRow P zero rs h = elim h [ ]
take-AnyRow P (suc n) [] h = h
take-AnyRow P (suc n) (r ∷ rs) (inl p) = inl p
take-AnyRow P (suc n) (r ∷ rs) (inr q) = inr (take-AnyRow P n rs q)

newer-AnyRow :
    (c d : ℤ) (feed : List Row)
    → AnyRow (λ x. ltb_ℤ d x.row_rev ≡ false) (newer c feed)
    → AnyRow (Between c d) feed
unfolding newer
newer-AnyRow c d [] h = h
newer-AnyRow c d (r ∷ rs) h = elim (Bool-cases (ltb_ℤ c r.row_rev)) [
  | inl e ↦ elim (rw e at h) [ inl p ↦ inl (e, p) | inr q ↦ inr (newer-AnyRow c d rs q) ]
  | inr e ↦ inr (newer-AnyRow c d rs (rw e at h))
]

Between-order : (c d : ℤ) (feed : List Row) → AnyRow (Between c d) feed → ltb_ℤ d c ≡ false
Between-order c d [] h = elim h [ ]
Between-order c d (r ∷ rs) (inl (p, q)) = ground arith
Between-order c d (r ∷ rs) (inr h) = Between-order c d rs h

-- Fewer rows are newer than a later cursor.
newer-later :
    (c d : ℤ) (feed : List Row) → ltb_ℤ d c ≡ false → length (newer d feed) ≤ length (newer c feed)
unfolding newer
newer-later c d [] h = ground arith
newer-later c d (r ∷ rs) h = ground (arith, newer-later c d rs h)

newer_shrinks :
    (c d : ℤ) (feed : List Row)
    → ltb_ℤ d c ≡ false
    → AnyRow (Between c d) feed
    → length (newer d feed) < length (newer c feed)
unfolding newer
newer_shrinks c d [] o h = elim h [ ]
newer_shrinks c d (r ∷ rs) o (inl (p, q)) = rw (p, q) (ground (arith, newer-later c d rs o))
newer_shrinks c d (r ∷ rs) o (inr h) = ground (arith, newer_shrinks c d rs o h)

-- A full page that the server has caught up with leaves fewer newer rows.
pub page_shrinks :
    (c d : ℤ) (feed : List Row)
    → fell_behind d (changes_since feed c max_rows) ≡ false
    → ltb (length (changes_since feed c max_rows)) max_rows ≡ false
    → length (newer d feed) < length (newer c feed)
unfolding changes_since fell_behind
page_shrinks c d feed behind full =
    let any = newer-AnyRow c d feed (
      take-AnyRow _ max_rows (newer c feed)
        (some_row (take max_rows (newer c feed)) behind full)) in
    newer_shrinks c d feed (Between-order c d feed any) any
  where
    some_row :
        (rows : List Row)
        → fell_behind d rows ≡ false
        → ltb (length rows) max_rows ≡ false
        → AnyRow (λ x. ltb_ℤ d x.row_rev ≡ false) rows
    some_row [] b f = ground arith
    some_row (r ∷ rs) b f = last_rev-AnyRow d r rs b

module _ {S : Type 0} (post : Batch → S → Reply × S) (o : Options) (feed : List Row) where
  settle-ends :
      (rows : List Row) (total : ℕ) (answer : Checked) (more : ℤ → ℕ → S → Attempt × S) (s : S)
      → ((d : ℤ) (n : ℕ) (t : S)
          → fell_behind d rows ≡ false
          → ltb (length rows) max_rows ≡ false
          → (more d n t).0 ≢ unfinished)
      → (settle post o feed rows total answer more s).0 ≢ unfinished
  unfolding settle
  settle-ends rows total (refused code) more s h = λ e. cc
  settle-ends rows total failed more s h = λ e. cc
  settle-ends rows total (good d) more s h = elim (Bool-cases (fell_behind d rows)) [
    | inl e ↦ rw e (λ q. cc)
    | inr e ↦ elim (Bool-cases (ltb (length rows) max_rows)) [
      | inl f ↦ rw (e, f) (λ q. cc)
      | inr f ↦ rw (e, f) (h d _ s e f)
    ]
  ]

  -- The loop of `syncOnce` ends, whatever the server answers, on as much fuel as rows are newer than
  -- the cursor, and one more.
  pub sync_loop_ends :
      (fuel : ℕ) (c : ℤ) (total : ℕ) (s : S)
      → length (newer c feed) < fuel
      → (sync_loop post o feed fuel c total s).0 ≢ unfinished
  unfolding sync_loop
  sync_loop_ends zero c total s h = ground arith
  sync_loop_ends (suc fuel) c total s h =
      settle-ends (changes_since feed c max_rows) total _ (sync_loop post o feed fuel) _
        λ d n t behind full.
          sync_loop_ends fuel d n t (let p = page_shrinks c d feed behind full in ground arith)
