-- ===== src/Store/Sessions.antt =====
-- The session ids of the endpoint database, internal/store/write.go.
use buckle.Base.{
  ℕ, Bytes, List, [], ◌∷◌, ◌++◌, Option, none, some, ◌≡◌, refl, ◌∙◌, arith, nat_eq, bytes_eq,
  beq_self, Option-cases, inl, inr,
}
use buckle.Base.Map.{Map}
use buckle.Exec.{ok}
use buckle.Store.{
  Tables, SessionRow, next_id, update, find_session, new_session, touch, upsert_session,
  ensure_session,
}

find_session-touch :
    (kind key : Bytes) (i t : ℕ) (m : Map ℕ SessionRow)
    → find_session kind key (update i (touch t) m) ≡ find_session kind key m
unfolding find_session update
find_session-touch kind key i t [] = refl
find_session-touch kind key i t ((j, r) ∷ m) = ground (arith, find_session-touch kind key i t m)

find_session-append :
    (kind key : Bytes) (i : ℕ) (m l : Map ℕ SessionRow)
    → find_session kind key m ≡ some i
    → find_session kind key (m ++ l) ≡ some i
unfolding find_session
find_session-append kind key i [] l h = ground arith
find_session-append kind key i ((j, r) ∷ m) l h = ground (arith, find_session-append kind key i m l)

find_session-new :
    (kind key : Bytes) (i t : ℕ) (m : Map ℕ SessionRow)
    → find_session kind key m ≡ none
    → find_session kind key (m ++ (i, new_session kind key t) ∷ []) ≡ some i
unfolding find_session
find_session-new kind key i t [] h = rw (beq_self kind, beq_self key)
find_session-new kind key i t ((j, r) ∷ m) h = ground (arith, find_session-new kind key i t m)

-- The id that a call returns is the one that is found from then on.
found :
    (kind key : Bytes) (t : ℕ) (m : Map ℕ SessionRow)
    → let (id, n) = upsert_session kind key t (find_session kind key m) m in
      find_session kind key n ≡ some id
unfolding upsert_session
found kind key t m = elim (Option-cases (find_session kind key m)) [
  | inl e ↦ rw e (find_session-new kind key (next_id m) t m e)
  | inr (i, e) ↦ rw e (find_session-touch kind key i t m ∙ e)
]

-- A later call, for any session, leaves it.
stays_found :
    (kind key kind' key' : Bytes) (t i : ℕ) (m : Map ℕ SessionRow) (o : Option ℕ)
    → find_session kind key m ≡ some i
    → find_session kind key (upsert_session kind' key' t o m).1 ≡ some i
unfolding upsert_session
stays_found kind key kind' key' t i m none h = find_session-append kind key i m _ h
stays_found kind key kind' key' t i m (some j) h = find_session-touch kind key j t m ∙ h

-- The table behind further calls, each with its kind, key and time.
abbrev pub ensure_all : List (Bytes × (Bytes × ℕ)) → Tables → Tables
ensure_all [] s = s
ensure_all ((kind, (key, t)) ∷ calls) s = ensure_all calls (ensure_session kind key t s).1

all_found :
    (calls : List (Bytes × (Bytes × ℕ))) (kind key : Bytes) (i : ℕ) (s : Tables)
    → find_session kind key s.sessions ≡ some i
    → find_session kind key (ensure_all calls s).sessions ≡ some i
unfolding ensure_session
all_found [] kind key i s h = h
all_found ((kind', (key', t)) ∷ calls) kind key i s h =
    all_found calls kind key i _ (stays_found kind key kind' key' t i s.sessions _ h)

id_of_found :
    (kind key : Bytes) (t i : ℕ) (s : Tables)
    → find_session kind key s.sessions ≡ some i
    → (ensure_session kind key t s).0 ≡ ok i
unfolding ensure_session upsert_session
id_of_found kind key t i s h = rw h

-- A session keeps its id: asked for again, after any other calls, it is the one that the first call
-- returned.
pub ensure_session_again :
    (kind key : Bytes) (t t' : ℕ) (calls : List (Bytes × (Bytes × ℕ))) (s : Tables)
    → let (r, s') = ensure_session kind key t s in
      (ensure_session kind key t' (ensure_all calls s')).0 ≡ r
unfolding ensure_session
ensure_session_again kind key t t' calls s =
    let s' = (ensure_session kind key t s).1 in
    id_of_found kind key t' _ (ensure_all calls s')
      (all_found calls kind key _ s' (found kind key t s.sessions))
