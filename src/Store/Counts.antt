-- ===== src/Store/Counts.antt =====
-- The denial counts of the endpoint database, internal/store/write.go.
use buckle.Base.{
  beq_self, ℕ, ◌+◌, ◌≤◌, ◌||◌, [], ◌∷◌, ◌++◌, is_some, ◌≡◌, refl, ap, ◌∙◌, arith, if◌then◌else◌,
  nat_eq,
}
use buckle.Base.Map
use buckle.Base.Map.{Map}
use buckle.Exec.{◌>>=◌}
use buckle.Rows
use buckle.Store.{Tables, next_id, update, insert_denial, add_denial_count}

-- What the rows of a table count.
abbrev pub sum_of : {R : Type 0} → (R → ℕ) → Map ℕ R → ℕ
sum_of f [] = 0
sum_of f ((i, r) ∷ m) = f r + sum_of f m

-- The denials that the rows stand for.
abbrev pub total : Map ℕ Rows.Denial → ℕ
total m = sum_of (λ d. d.count) m

abbrev pub counted : ℕ → Rows.Denial → Rows.Denial
counted n d = record d { count = d.count + n }

module _ {R : Type 0} where
  pub sum_of-append : (f : R → ℕ) (l m : Map ℕ R) → sum_of f (l ++ m) ≡ sum_of f l + sum_of f m
  sum_of-append f [] m = ground arith
  sum_of-append f ((i, d) ∷ l) m = ground (arith, sum_of-append f l m)

  -- An update that adds `n` to a row.
  pub sum_of-update :
      (f : R → ℕ) (g : R → R) (id n : ℕ) (m : Map ℕ R)
      → ((r : R) → f (g r) ≡ f r + n)
      → sum_of f (update id g m) ≡ sum_of f m + (if is_some (Map.lookup id m) then n else 0)
  unfolding update Map.lookup
  sum_of-update f g id n [] h = ground arith
  sum_of-update f g id n ((i, r) ∷ m) h = ground (arith, sum_of-update f g id n m h, h r)

  -- Rows that are there stay under an update and behind an insert, and the new row is there.
  pub has-update :
      (id j : ℕ) (g : R → R) (m : Map ℕ R)
      → is_some (Map.lookup j (update id g m)) ≡ is_some (Map.lookup j m)
  unfolding update Map.lookup
  has-update id j g [] = refl
  has-update id j g ((i, r) ∷ m) = ground (arith, has-update id j g m)

  pub has-append :
      (j : ℕ) (l m : Map ℕ R)
      → is_some (Map.lookup j (l ++ m)) ≡ (is_some (Map.lookup j l) || is_some (Map.lookup j m))
  unfolding Map.lookup
  has-append j [] m = refl
  has-append j ((i, r) ∷ l) m = ground (arith, has-append j l m)

-- A row id is new when it is at least the next one.
update-append :
    {R : Type 0} (id : ℕ) (f : R → R) (l m : Map ℕ R)
    → next_id l ≤ id
    → update id f (l ++ m) ≡ l ++ update id f m
unfolding update next_id
update-append id f [] m h = refl
update-append id f ((i, r) ∷ l) m h = ground (arith, update-append id f l m)

update-one : {R : Type 0} (id : ℕ) (f : R → R) (r : R) → update id f ((id, r) ∷ []) ≡ (id, f r) ∷ []
unfolding update
update-one id f r = rw (beq_self id)

-- A denial that is inserted, then counted again under the id that the insert returned, adds its
-- count and the repetitions to the total: the update reaches the new row and no other.
pub total-insert_denial :
    (d : Rows.Denial) (n : ℕ) (s : Tables)
    → let t = ((insert_denial d >>= λ id. add_denial_count id n) s).1 in
      (t.denials ≡ s.denials ++ (next_id s.denials, counted n d) ∷ [])
      × (total t.denials ≡ total s.denials + (d.count + n))
unfolding ◌>>=◌ insert_denial add_denial_count
total-insert_denial d n s =
    let id = next_id s.denials in
    let e =
      update-append id (counted n) s.denials ((id, d) ∷ []) (ground arith)
      ∙ ap (λ l. s.denials ++ l) (update-one id (counted n) d) in
    (e, ap total e ∙ sum_of-append (λ d. d.count) s.denials _ ∙ ground arith)

-- Repetitions that are added to a stored denial are in the total; added to an id that no row has,
-- they are lost.
pub total-add_denial_count :
    (id n : ℕ) (s : Tables)
    → total (add_denial_count id n s).1.denials
      ≡ total s.denials + (if is_some (Map.lookup id s.denials) then n else 0)
unfolding add_denial_count
total-add_denial_count id n s = sum_of-update (λ d. d.count) (counted n) id n s.denials (λ d. refl)
