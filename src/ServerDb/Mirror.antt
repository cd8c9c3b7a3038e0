-- ===== src/ServerDb/Mirror.antt =====
-- What one upsert does to the mirrored rows, for a database whose `>` orders integers.
use buckle.Base.{
  Bool, true, false, Bytes, Option, none, some, ◌==◌, bytes_eq, bytes_beq, if◌then◌else◌, ◌≡◌, refl,
  sym, ap, ◌∙◌, arith, Bool-cases, Option-cases, inl, inr, beq_self,
}
use buckle.Base.Int.{ℤ, ltb_ℤ, int_eq}
use buckle.Base.Map
use buckle.Base.Map.{Map}
use buckle.Wire.{Value, null, int, value_eq, Row, key_column, is_reference}
use buckle.ServerDb.{Stored, RowKey, row_values, merge, row_key, rev_column, upsert, row_key_eq}

-- A row whose `rev` value is the integer that the row announces.
abbrev pub HasRev : Row → Type 0
HasRev r = row_values r rev_column ≡ int r.row_rev

-- Every stored row has an integer `rev`.
abbrev pub HasIntRevs : Map RowKey Stored → Type 0
HasIntRevs m =
    (k : RowKey) (old : Stored) → Map.lookup k m ≡ some old → (n : ℤ) × (old rev_column ≡ int n)

abbrev pub OrdersIntegers : (Value → Value → Bool) → Type 0
OrdersIntegers gt = (a b : ℤ) → gt (int a) (int b) ≡ ltb_ℤ b a

-- The merged row takes the new `rev`, and never loses a reference.
pub merge-rev :
    (t : Bytes) (new old : Stored) → merge (key_column t) new old rev_column ≡ new rev_column
unfolding merge key_column bytes_beq
merge-rev t new old = ground arith

merge-reference :
    (key c : Bytes) (new old : Stored)
    → is_reference c ≡ true
    → new c ≡ null
    → merge key new old c ≡ old c
unfolding merge
merge-reference key c new old h n = ground arith

module _ (gt : Value → Value → Bool) where
  -- What the upsert of a row stores under the row's key.
  abbrev pub stored_after : Row → Option Stored → Stored
  stored_after r none = row_values r
  stored_after r (some old) =
      if gt (row_values r rev_column) (old rev_column)
      then merge (key_column r.table) (row_values r) old
      else old

  pub lookup-upsert :
      (host inst : Bytes) (r : Row) (m : Map RowKey Stored) (j : RowKey)
      → Map.lookup j (upsert gt host inst r m) ≡ (
          if row_key host inst r == j
          then some (stored_after r (Map.lookup (row_key host inst r) m))
          else Map.lookup j m)
  unfolding upsert
  lookup-upsert host inst r m j =
      let k = row_key host inst r in
      elim (Option-cases (Map.lookup k m)) [
        | inl e ↦ rw (e, upsert) (Map.lookup-insert k j (row_values r) m)
        | inr (old, e) ↦ ground (
          arith,
          Map.lookup-insert k j (merge (key_column r.table) (row_values r) old) m,
          row_key_eq.beq_iff k j,
        )
      ]

module _ (gt : Value → Value → Bool) where
  -- A stored row that an upsert leaves as it is.
  abbrev pub Settled : Bytes → Bytes → Row → Map RowKey Stored → Type 0
  Settled host inst r m =
      (old : Stored) × (Map.lookup (row_key host inst r) m ≡ some old)
      × (gt (row_values r rev_column) (old rev_column) ≡ false)

  pub upsert-Settled :
      (host inst : Bytes) (r : Row) (m : Map RowKey Stored)
      → Settled host inst r m
      → upsert gt host inst r m ≡ m
  unfolding upsert
  upsert-Settled host inst r m (old, e, g) = rw (e, upsert) (rw g)

module _ (gt : Value → Value → Bool) (ints : OrdersIntegers gt) where
  -- The `rev` that is stored under the key of a row after its upsert is no older than the row's.
  stored_after-rev :
      (r : Row) (o : Option Stored)
      → HasRev r
      → gt (row_values r rev_column) (stored_after gt r o rev_column) ≡ false
  stored_after-rev r none h = rw h (ints r.row_rev r.row_rev ∙ ground arith)
  stored_after-rev r (some old) h =
      ground
        (arith, merge-rev r.table (row_values r) old, ints r.row_rev r.row_rev, ap (λ v. gt v v) h)

  pub Settled-upsert_self :
      (host inst : Bytes) (r : Row) (m : Map RowKey Stored)
      → HasRev r
      → Settled gt host inst r (upsert gt host inst r m)
  Settled-upsert_self host inst r m h =
      let k = row_key host inst r in
      (
        stored_after gt r (Map.lookup k m),
        rw (lookup-upsert gt host inst r m k, beq_self k),
        stored_after-rev r (Map.lookup k m) h,
      )

  HasIntRevs-stored_after :
      (r : Row) (o : Option Stored)
      → HasRev r
      → ((old : Stored) → o ≡ some old → (n : ℤ) × (old rev_column ≡ int n))
      → (n : ℤ) × (stored_after gt r o rev_column ≡ int n)
  HasIntRevs-stored_after r none h k = (r.row_rev, h)
  HasIntRevs-stored_after r (some old) h k =
      elim (Bool-cases (gt (row_values r rev_column) (old rev_column))) [
        | inl e ↦ (r.row_rev, rw e (merge-rev r.table (row_values r) old ∙ h))
        | inr e ↦ rw e (k old refl)
      ]

  pub upsert-HasIntRevs :
      (host inst : Bytes) (r : Row) (m : Map RowKey Stored)
      → HasRev r
      → HasIntRevs m
      → HasIntRevs (upsert gt host inst r m)
  upsert-HasIntRevs host inst r m h v j old e =
      let k = row_key host inst r in
      let after = HasIntRevs-stored_after r (Map.lookup k m) h (λ o p. v k o p) in
      elim (Bool-cases (k == j)) [
        | inl same ↦
            let e' : stored_after gt r (Map.lookup k m) ≡ old =
              ground (arith, lookup-upsert gt host inst r m j) in
            (after.0, ap (λ (s : Stored). s rev_column) (sym e') ∙ after.1)
        | inr other ↦ v j old (ground (arith, lookup-upsert gt host inst r m j))
      ]

  -- A later row never makes a settled one newer again.
  gt-stored_after :
      (r r' : Row) (old : Stored)
      → HasRev r
      → HasRev r'
      → (n : ℤ) × (old rev_column ≡ int n)
      → gt (row_values r rev_column) (old rev_column) ≡ false
      → gt (row_values r rev_column) (stored_after gt r' (some old) rev_column) ≡ false
  gt-stored_after r r' old h h' (n, e) g =
      elim (Bool-cases (gt (row_values r' rev_column) (old rev_column))) [
        | inl newer ↦
            rw (newer, merge-rev r'.table (row_values r') old, h, h', ints r.row_rev r'.row_rev)
              (ground
                (arith, rw (h, e, ints r.row_rev n) at g, rw (h', e, ints r'.row_rev n) at newer))
        | inr older ↦ rw older g
      ]

  pub Settled-upsert :
      (host inst : Bytes) (r r' : Row) (m : Map RowKey Stored)
      → HasRev r
      → HasRev r'
      → HasIntRevs m
      → Settled gt host inst r m
      → Settled gt host inst r (upsert gt host inst r' m)
  Settled-upsert host inst r r' m h h' v (old, e, g) =
      let k = row_key host inst r' in
      let j = row_key host inst r in
      elim (Bool-cases (k == j)) [
        | inl same ↦ (
          stored_after gt r' (some old),
          rw (lookup-upsert gt host inst r' m j, same)
              (ap (λ o. some (stored_after gt r' o))
                (ap (λ x. Map.lookup x m) ((row_key_eq.beq_iff k j).0 same) ∙ e)),
          gt-stored_after r r' old h h' (v j old e) g,
        )
        | inr other ↦ (old, rw (lookup-upsert gt host inst r' m j, other) e, g)
      ]
