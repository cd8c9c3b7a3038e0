-- ===== src/Delivery/Pages.antt =====
-- The pages that `syncOnce` reads from a feed in the order of its revisions.
use buckle.Base.{
  ℕ, zero, suc, ◌≤◌, true, false, List, [], ◌∷◌, none, ◌≡◌, refl, sym, ap, subst, arith, All,
  All-append, All-imp, take, drop, length, ltb, Bool-cases, inl, inr, take-append-drop,
}
use buckle.Base.Int.{ℤ, pos, ltb_ℤ, max_ℤ, ◌<ℤ◌, ◌≤ℤ◌}
use buckle.Wire.{Row}
use buckle.ServerDb.{max_rev, validate_row, validate_rows}
use buckle.Ship.{newer, last_rev, fell_behind}

-- The revisions rise, from above `a`: they are unique.
abbrev pub Above : ℤ → List Row → Type 0
Above a [] = Unit
Above a (r ∷ rs) = (a <ℤ r.row_rev) × Above r.row_rev rs

pub newer-Above :
    (a b c : ℤ) (feed : List Row) → b ≤ℤ max_ℤ a c → Above a feed → Above b (newer c feed)
unfolding newer
newer-Above a b c [] h k = tt
newer-Above a b c (r ∷ rs) h k = elim (Bool-cases (ltb_ℤ c r.row_rev)) [
  | inl e ↦ rw e (ground arith, newer-Above r.row_rev r.row_rev c rs (ground arith) k.1)
  | inr e ↦ rw e (newer-Above r.row_rev b c rs (ground arith) k.1)
]

pub length-newer-le : (c : ℤ) (rs : List Row) → length (newer c rs) ≤ length rs
unfolding newer
length-newer-le c [] = omega arith
length-newer-le c (r ∷ rs) = ground (arith, length-newer-le c rs)

Above-All : (a b : ℤ) (rs : List Row) → a ≤ℤ b → Above b rs → All (λ r. a <ℤ r.row_rev) rs
Above-All a b [] h k = tt
Above-All a b (r ∷ rs) h k = (ground arith, Above-All a r.row_rev rs (ground arith) k.1)

-- What a page leaves is newer than all that it holds.
drop-Above :
    (n : ℕ) (b : ℤ) (rs : List Row)
    → Above b rs
    → All (λ r. max_rev b (take n rs) <ℤ r.row_rev) (drop n rs)
unfolding max_rev
drop-Above zero b rs h = Above-All b b rs (ground arith) h
drop-Above (suc n) b [] h = tt
drop-Above (suc n) b (r ∷ rs) h =
    let highest : max_ℤ b r.row_rev ≡ r.row_rev = ground arith in
    subst (λ x. All (λ q. max_rev x (take n rs) <ℤ q.row_rev) (drop n rs)) (sym highest)
      (drop-Above n r.row_rev rs h.1)

last_rev-max_rev : (a b : ℤ) (rs : List Row) → a ≤ℤ b → last_rev a rs ≤ℤ max_rev b rs
unfolding max_rev
last_rev-max_rev a b [] h = h
last_rev-max_rev a b (r ∷ rs) h = last_rev-max_rev r.row_rev (max_ℤ b r.row_rev) rs (ground arith)

-- A cursor past every revision of the page is not behind it.
pub not_behind :
    (c : ℤ) (rows : List Row) → fell_behind (max_ℤ c (max_rev (pos 0) rows)) rows ≡ false
unfolding fell_behind max_rev
not_behind c [] = refl
not_behind c (r ∷ rs) =
    let h = last_rev-max_rev r.row_rev (max_ℤ (pos 0) r.row_rev) rs (ground arith) in ground arith

pub All-newer : (P : Row → Type 0) (c : ℤ) (feed : List Row) → All P feed → All P (newer c feed)
unfolding newer
All-newer P c [] h = tt
All-newer P c (r ∷ rs) h = elim (Bool-cases (ltb_ℤ c r.row_rev)) [
  | inl e ↦ rw e (h.0, All-newer P c rs h.1)
  | inr e ↦ rw e (All-newer P c rs h.1)
]

-- Rows up to the cursor, and the newer ones, are all rows.
pub All-split :
    (P : Row → Type 0) (c : ℤ) (feed : List Row)
    → All (λ r. ltb_ℤ c r.row_rev ≡ false → P r) feed
    → All P (newer c feed)
    → All P feed
unfolding newer
All-split P c [] h k = tt
All-split P c (r ∷ rs) h k = elim (Bool-cases (ltb_ℤ c r.row_rev)) [
  | inl e ↦ let k' = rw e at k in (k'.0, All-split P c rs h.1 k'.1)
  | inr e ↦ (h.0 e, All-split P c rs h.1 (rw e at k))
]

-- What holds of the rows up to a cursor, and of the page behind it, holds of the rows up to the
-- next cursor.
pub page_covers :
    (P : Row → Type 0) (n : ℕ) (c : ℤ) (feed : List Row)
    → Above (pos 0) feed
    → All (λ r. ltb_ℤ c r.row_rev ≡ false → P r) feed
    → All P (take n (newer c feed))
    → All
        (λ r. ltb_ℤ (max_rev (max_ℤ c (pos 0)) (take n (newer c feed))) r.row_rev ≡ false → P r)
        feed
page_covers P n c feed up old page =
    let d = max_rev (max_ℤ c (pos 0)) (take n (newer c feed)) in
    let Q : Row → Type 0 = λ r. ltb_ℤ d r.row_rev ≡ false → P r in
    let left =
      drop-Above n (max_ℤ c (pos 0)) (newer c feed)
        (newer-Above (pos 0) (max_ℤ c (pos 0)) c feed (ground arith) up) in
    All-split Q c feed (All-imp _ _ (λ r f e _. f e) feed old) (
      subst (All Q) (take-append-drop n (newer c feed)) (
        All-append Q (take n (newer c feed)) (drop n (newer c feed))
          (All-imp P Q (λ r p _. p) _ page) (All-imp _ Q (λ r k e. ground arith) _ left)))

pub validate_rows-All :
    (i : ℕ) (rs : List Row) → All (λ r. validate_row r ≡ none) rs → validate_rows i rs ≡ none
unfolding validate_rows
validate_rows-All i [] h = refl
validate_rows-All i (r ∷ rs) h = rw (validate_rows, h.0) (validate_rows-All (suc i) rs h.1)

-- A page that is not full is all that is left.
pub short_page : (n : ℕ) (rs : List Row) → ltb (length (take n rs)) n ≡ true → take n rs ≡ rs
short_page zero rs h = ground arith
short_page (suc n) [] h = refl
short_page (suc n) (r ∷ rs) h = ap (◌∷◌ r) (short_page n rs (ground arith))

pub Above-take : (n : ℕ) (b : ℤ) (rs : List Row) → Above b rs → Above b (take n rs)
Above-take zero b rs h = tt
Above-take (suc n) b [] h = tt
Above-take (suc n) b (r ∷ rs) h = (h.0, Above-take n r.row_rev rs h.1)
