-- ===== src/Store/Prune/Referenced.antt =====
-- What internal/store/prune.go leaves of sessions and profiles.
use buckle.Base.{
  ℕ, ◌+◌, ◌-◌, ◌≤◌, not, ltb, true, false, Option, some, ◌↔◌, ◌⊎◌, Bool, Bytes, [], ◌∷◌, none, refl,
  ◌≡◌, arith, if◌then◌else◌, ◌==◌, Eq, nat_eq, bytes_eq, Bool-cases, inl, inr,
}
use buckle.Base.Map
use buckle.Base.Map.{Map}
use mathlib.Core.Bool.{false≢true}
use buckle.Store.{Tables, RunRow, SessionRow}
use buckle.Store.Prune.{
  keep, each, detach_run, refers, names_session, names_profile, prune_runs, prune_rest, prune,
}

lookup-keep :
    {K R : Type 0} ⦃e : Eq K⦄ (p : K → Bool) (k : K) (m : Map K R)
    → Map.lookup k (keep (λ j r. p j) m) ≡ (if p k then Map.lookup k m else none)
unfolding keep Map.lookup
lookup-keep p k [] = ground arith
lookup-keep ⦃e⦄ p k ((j, r) ∷ m) = elim (Bool-cases (j == k)) [
  | inl same ↦ ground (arith, lookup-keep p k m, (e.beq_iff j k).0 same)
  | inr other ↦ ground (arith, lookup-keep p k m)
]

-- Some row of a table is as `P` says.
abbrev pub Among : {R : Type 0} → (R → Type 0) → Map ℕ R → Type 0
Among P [] = ⊥
Among P ((i, r) ∷ m) = P r ⊎ Among P m

-- A run of the last `max_age` that refers to the session, or to the profile.
abbrev pub KeepsSession : ℕ → ℕ → ℕ → RunRow → Type 0
KeepsSession now max_age id r = (r.session_id ≡ some id) × (now ≤ r.written.started_at + max_age)

abbrev pub KeepsProfile : ℕ → ℕ → Bytes → RunRow → Type 0
KeepsProfile now max_age hash r =
    (r.profile_hash ≡ some hash) × (now ≤ r.written.started_at + max_age)

refers_iff : {K : Type 0} ⦃e : Eq K⦄ (k : K) (o : Option K) → (refers k o ≡ true) ↔ (o ≡ some k)
refers_iff k none = ground arith
refers_iff ⦃e⦄ k (some j) = ground (arith, e.beq_iff j k)

module _ (now max_age : ℕ) (kept : Map ℕ RunRow) where
  abbrev left : Map ℕ RunRow → Map ℕ RunRow
  left m = each (detach_run kept) (keep (λ i r. not (ltb r.written.started_at (now - max_age))) m)

  names_session_iff :
      (id : ℕ) (m : Map ℕ RunRow)
      → (names_session (left m) id ≡ true) ↔ Among (KeepsSession now max_age id) m
  unfolding names_session keep each
  names_session_iff id [] = ground arith
  names_session_iff id ((i, r) ∷ m) =
      elim (Bool-cases (not (ltb r.written.started_at (now - max_age)))) [
        | inl e ↦ rw e (ground (arith, e, refers_iff id r.session_id, names_session_iff id m))
        | inr e ↦ rw e (ground (arith, e, names_session_iff id m))
      ]

  names_profile_iff :
      (hash : Bytes) (m : Map ℕ RunRow)
      → (names_profile (left m) hash ≡ true) ↔ Among (KeepsProfile now max_age hash) m
  unfolding names_profile keep each
  names_profile_iff hash [] = ground arith
  names_profile_iff hash ((i, r) ∷ m) =
      elim (Bool-cases (not (ltb r.written.started_at (now - max_age)))) [
        | inl e ↦ rw e (ground (arith, e, refers_iff hash r.profile_hash, names_profile_iff hash m))
        | inr e ↦ rw e (ground (arith, e, names_profile_iff hash m))
      ]

kept_iff :
    {R A : Type 0} (b : Bool) (o : Option R) (r : R)
    → (b ≡ true) ↔ A
    → ((if b then o else none) ≡ some r) ↔ ((o ≡ some r) × A)
kept_iff true o r h = (λ e. (e, h.0 refl), λ p. p.0)
kept_iff false o r h = (λ e. cc, λ p. absurd (false≢true (h.1 p.1)))

-- Pruning leaves a session exactly when there was one, unchanged, and some run that began in the
-- last `max_age` refers to it; and so for profiles.
pub prune-referenced :
    (now max_age : ℕ) (s : Tables) (id : ℕ) (hash : Bytes) (row : SessionRow) (text : Bytes)
    → let t = prune now max_age s in
      ((Map.lookup id t.sessions ≡ some row)
        ↔ ((Map.lookup id s.sessions ≡ some row) × Among (KeepsSession now max_age id) s.runs))
      × ((Map.lookup hash t.profiles ≡ some text) ↔ (
          (Map.lookup hash s.profiles ≡ some text) × Among (KeepsProfile now max_age hash) s.runs))
unfolding prune prune_rest prune_runs
prune-referenced now max_age s id hash row text =
    let u = prune_runs (now - max_age) s in
    let kept = keep (λ i r. not (ltb r.written.started_at (now - max_age))) s.runs in
    (
      rw (lookup-keep (names_session u.runs) id s.sessions)
          (kept_iff (names_session u.runs id) _ row (names_session_iff now max_age kept id s.runs)),
      rw (lookup-keep (names_profile u.runs) hash s.profiles) (
          kept_iff (names_profile u.runs hash) _ text
            (names_profile_iff now max_age kept hash s.runs)),
    )
