-- ===== src/Delivery/Mirrored.antt =====
-- What internal/serverdb/ingest.go holds of the rows that internal/ship/ship.go sent.
use buckle.Base.{
  Bool, true, false, Bytes, List, [], ◌∷◌, Option, none, some, ◌==◌, bytes_eq, if◌then◌else◌, ◌≡◌,
  ◌≢◌, ◌⊎◌, refl, sym, ap, subst, ◌∙◌, arith, Bool-cases, inl, inr, beq_self, All,
}
use buckle.Base.Int.{ℤ, pos, max_ℤ, ◌<ℤ◌, ◌≤ℤ◌}
use buckle.Base.Map
use buckle.Base.Map.{Map}
use buckle.Wire.{Value, null, str, int, float, bool, compound, Row, key_column, is_reference}
use buckle.ServerDb.{
  Stored, RowKey, get, int_or_zero, coalesce, row_values, bool_to_int, merge, row_key, rev_column,
  upsert, upsert_all, max_rev, row_key_eq,
}
use buckle.ServerDb.Mirror.{HasRev, OrdersIntegers, stored_after, lookup-upsert, merge-rev}
use buckle.Delivery.Pages.{Above}

-- What a database holds for a value of the wire protocol: it has no Booleans.
abbrev pub Holds : Value → Value → Type 0
Holds (bool true) x = x ≡ int (pos 1)
Holds (bool false) x = x ≡ int (pos 0)
Holds null x = x ≡ null
Holds (str b) x = x ≡ str b
Holds (int n) x = x ≡ int n
Holds (float b) x = x ≡ float b
Holds compound x = x ≡ compound

-- The stored row has the row's value in every column behind the key, but that a reference which the
-- row leaves null may be kept.
abbrev pub Copied : Row → Stored → Type 0
Copied r x =
    (c : Bytes)
    → (c == key_column r.table) ≡ false
    → (is_reference c ≡ false) ⊎ (get r.values c ≢ null)
    → Holds (get r.values c) (x c)

-- Under the row's table, database and key stands a copy of it, or a later revision.
pub record Mirrored (host inst : Bytes) (r : Row) (m : Map RowKey Stored) : Type 0 where
  pub key : Value
  pub key_is : Holds (get r.values (key_column r.table)) key
  pub stored : Stored
  pub stored_is : Map.lookup ⦃e = row_key_eq⦄ (r.table, (host, (inst, key))) m ≡ some stored
  pub rev : ℤ
  pub rev_is : stored rev_column ≡ int rev
  pub content : ((rev ≡ r.row_rev) × Copied r stored) ⊎ (r.row_rev <ℤ rev)

-- No stored row of the database has a revision above `c`.
abbrev pub Below : Bytes → Bytes → ℤ → Map RowKey Stored → Type 0
Below host inst c m =
    (t : Bytes) (k : Value) (old : Stored)
    → Map.lookup ⦃e = row_key_eq⦄ (t, (host, (inst, k))) m ≡ some old
    → (n : ℤ) × (old rev_column ≡ int n) × (n ≤ℤ c)

Holds-bool_to_int : (v : Value) → Holds v (bool_to_int v)
Holds-bool_to_int null = refl
Holds-bool_to_int (str b) = refl
Holds-bool_to_int (int n) = refl
Holds-bool_to_int (float b) = refl
Holds-bool_to_int (bool true) = refl
Holds-bool_to_int (bool false) = refl
Holds-bool_to_int compound = refl

Holds-coalesce : (v old : Value) → v ≢ null → Holds v (coalesce (bool_to_int v) old)
Holds-coalesce null old h = absurd (h refl)
Holds-coalesce (str b) old h = refl
Holds-coalesce (int n) old h = refl
Holds-coalesce (float b) old h = refl
Holds-coalesce (bool true) old h = refl
Holds-coalesce (bool false) old h = refl
Holds-coalesce compound old h = refl

Copied-row_values : (r : Row) → Copied r (row_values r)
unfolding row_values
Copied-row_values r c k h = Holds-bool_to_int (get r.values c)

Copied-merge : (r : Row) (old : Stored) → Copied r (merge (key_column r.table) (row_values r) old)
unfolding row_values merge
Copied-merge r old c k h = elim (Bool-cases (is_reference c)) [
  | inl e ↦ rw (k, e) (Holds-coalesce (get r.values c) (old c) (given e h))
  | inr e ↦ rw (k, e) (Holds-bool_to_int (get r.values c))
]
  where
    given :
        is_reference c ≡ true
        → (is_reference c ≡ false) ⊎ (get r.values c ≢ null)
        → get r.values c ≢ null
    given e (inl f) = absurd (cc)
    given e (inr n) = n

outrun :
    {A : Type 0} (q p n c r : ℤ)
    → ((p ≡ q) × A) ⊎ (q <ℤ p)
    → int p ≡ int n
    → n ≤ℤ c
    → c <ℤ r
    → q <ℤ r
outrun q p n c r (inl (e, a)) f g l =
    let i : p ≡ n = ap int_or_zero f in
    let k : q ≡ n = sym e ∙ i in subst (λ x. x <ℤ r) (sym k) (ground arith)
outrun q p n c r (inr e) f g l =
    let i : p ≡ n = ap int_or_zero f in let k : q <ℤ n = subst (λ x. q <ℤ x) i e in ground arith

module _ (gt : Value → Value → Bool) (ints : OrdersIntegers gt) (host inst : Bytes) where
  -- What the upsert of a newer row stores.
  pub record Newest (r : Row) (x : Stored) : Type 0 where
    rev_here : x rev_column ≡ int r.row_rev
    copied : Copied r x

  stored_after-Newest :
      (r : Row) (c : ℤ) (o : Option Stored)
      → HasRev r
      → c <ℤ r.row_rev
      → ((old : Stored) → o ≡ some old → (n : ℤ) × (old rev_column ≡ int n) × (n ≤ℤ c))
      → Newest r (stored_after gt r o)
  stored_after-Newest r c none h l b = record { rev_here = h; copied = Copied-row_values r }
  stored_after-Newest r c (some old) h l b =
      let (n, e, k) = b old refl in
      let newer : gt (row_values r rev_column) (old rev_column) ≡ true =
        rw (h, e) (ints r.row_rev n ∙ ground arith) in
      subst (Newest r)
        (sym (
          ap (λ (x : Bool). if x then merge (key_column r.table) (row_values r) old else old)
            newer))
        (record {
          rev_here = merge-rev r.table (row_values r) old ∙ h;
          copied = Copied-merge r old;
        })

  upserted :
      (r : Row) (c : ℤ) (m : Map RowKey Stored)
      → HasRev r
      → c <ℤ r.row_rev
      → Below host inst c m
      → Newest r (stored_after gt r (Map.lookup ⦃e = row_key_eq⦄ (row_key host inst r) m))
  unfolding row_key
  upserted r c m h l b =
      stored_after-Newest r c _ h l (b r.table (row_values r (key_column r.table)))

  upsert-Mirrored :
      (r : Row) (c : ℤ) (m : Map RowKey Stored)
      → HasRev r
      → c <ℤ r.row_rev
      → Below host inst c m
      → Mirrored host inst r (upsert gt host inst r m)
  unfolding row_key row_values
  upsert-Mirrored r c m h l b =
      let new = upserted r c m h l b in
      record {
        key = row_values r (key_column r.table);
        key_is = Holds-bool_to_int (get r.values (key_column r.table));
        stored = stored_after gt r (Map.lookup ⦃e = row_key_eq⦄ (row_key host inst r) m);
        stored_is =
            rw
              (lookup-upsert gt host inst r m (row_key host inst r), beq_self (row_key host inst r))
              refl;
        rev = r.row_rev;
        rev_is = new.rev_here;
        content = inl (refl, new.copied);
      }

  upsert-Below :
      (r : Row) (c : ℤ) (m : Map RowKey Stored)
      → HasRev r
      → c <ℤ r.row_rev
      → Below host inst c m
      → Below host inst r.row_rev (upsert gt host inst r m)
  upsert-Below r c m h l b t k old e =
      let j : RowKey = (t, (host, (inst, k))) in
      elim (Bool-cases (row_key host inst r == j)) [
        | inl same ↦
            let new = upserted r c m h l b in
            let is : stored_after gt r (Map.lookup ⦃e = row_key_eq⦄ (row_key host inst r) m) ≡ old =
              ground (arith, lookup-upsert gt host inst r m j) in
            (r.row_rev, ap (λ (s : Stored). s rev_column) (sym is) ∙ new.rev_here, ground arith)
        | inr other ↦
            let (n, f, g) = b t k old (ground (arith, lookup-upsert gt host inst r m j)) in
            (n, f, ground arith)
      ]

  -- A newer row takes the place of a mirrored one, or leaves it.
  stays_Mirrored :
      (q r : Row) (c : ℤ) (m : Map RowKey Stored)
      → HasRev r
      → c <ℤ r.row_rev
      → Below host inst c m
      → Mirrored host inst q m
      → Mirrored host inst q (upsert gt host inst r m)
  stays_Mirrored q r c m h l b p =
      let j : RowKey = (q.table, (host, (inst, p.key))) in
      let (n, f, g) = b q.table p.key p.stored p.stored_is in
      elim (Bool-cases (row_key host inst r == j)) [
        | inl same ↦
            let new = upserted r c m h l b in
            record {
              key = p.key;
              key_is = p.key_is;
              stored = stored_after gt r (Map.lookup ⦃e = row_key_eq⦄ (row_key host inst r) m);
              stored_is = rw (lookup-upsert gt host inst r m j, same) refl;
              rev = r.row_rev;
              rev_is = new.rev_here;
              content = inr (outrun q.row_rev p.rev n c r.row_rev p.content (sym p.rev_is ∙ f) g l);
            }
        | inr other ↦ record {
          key = p.key;
          key_is = p.key_is;
          stored = p.stored;
          stored_is = rw (lookup-upsert gt host inst r m j, other) (p.stored_is);
          rev = p.rev;
          rev_is = p.rev_is;
          content = p.content;
        }
      ]

  pub upsert_all-stays :
      (rs : List Row) (q : Row) (c : ℤ) (m : Map RowKey Stored)
      → All HasRev rs
      → Above c rs
      → Below host inst c m
      → Mirrored host inst q m
      → Mirrored host inst q (upsert_all gt host inst rs m)
  unfolding upsert_all
  upsert_all-stays [] q c m h l b p = p
  upsert_all-stays (r ∷ rs) q c m h l b p =
      upsert_all-stays rs q r.row_rev (upsert gt host inst r m) h.1 l.1
        (upsert-Below r c m h.0 l.0 b) (stays_Mirrored q r c m h.0 l.0 b p)

  pub upsert_all-Mirrored :
      (rs : List Row) (c : ℤ) (m : Map RowKey Stored)
      → All HasRev rs
      → Above c rs
      → Below host inst c m
      → All (λ r. Mirrored host inst r (upsert_all gt host inst rs m)) rs
  unfolding upsert_all
  upsert_all-Mirrored [] c m h l b = tt
  upsert_all-Mirrored (r ∷ rs) c m h l b =
      let after = upsert-Below r c m h.0 l.0 b in
      (
        upsert_all-stays rs r r.row_rev (upsert gt host inst r m) h.1 l.1 after
            (upsert-Mirrored r c m h.0 l.0 b),
        upsert_all-Mirrored rs r.row_rev (upsert gt host inst r m) h.1 l.1 after,
      )

  pub upsert_all-Below :
      (rs : List Row) (c : ℤ) (m : Map RowKey Stored)
      → All HasRev rs
      → Above c rs
      → Below host inst c m
      → Below host inst (max_rev c rs) (upsert_all gt host inst rs m)
  unfolding upsert_all max_rev
  upsert_all-Below [] c m h l b = b
  upsert_all-Below (r ∷ rs) c m h l b =
      let highest : max_ℤ c r.row_rev ≡ r.row_rev = let k = l.0 in ground arith in
      subst
        (λ x. Below host inst (max_rev x rs) (upsert_all gt host inst rs (upsert gt host inst r m)))
        (sym highest)
        (upsert_all-Below rs r.row_rev (upsert gt host inst r m) h.1 l.1
          (upsert-Below r c m h.0 l.0 b))
