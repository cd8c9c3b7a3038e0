-- ===== src/Correlate/Ledger/Waiting.antt =====
-- The denials that wait in internal/correlate/correlator.go, and what the pointers to them mean.
use buckle.Base.{
  ℕ, ◌+◌, true, List, [], ◌∷◌, ◌++◌, some, ◌≡◌, ◌≢◌, ◌⊎◌, inl, inr, refl, sym, ◌∙◌, arith, or_else,
  if◌then◌else◌, is_some, nat_eq, nat_beq_iff, Bool-cases, subst, bytes_eq, pair_eq, ◌==◌, All,
  Unique,
}
use mathlib.Core.Bool.{false≢true}
use buckle.Base.Map
use buckle.Base.Map.{Map}
use buckle.Correlate.State.{State, DenialKey, Pending, key_of}
use buckle.Correlate.Denials.{bump}
use buckle.Correlate.Ledger.{Tally, Known}

-- The denials that the pendings of a list stand for, and those of all lists.
abbrev pub weight : List Pending → ℕ
weight [] = 0
weight (p ∷ ps) = p.count + weight ps

abbrev pub waiting : Map ℕ (List Pending) → ℕ
waiting [] = 0
waiting ((pid, l) ∷ m) = weight l + waiting m

abbrev pub pids : Map ℕ (List Pending) → List ℕ
pids [] = []
pids ((pid, l) ∷ m) = pid ∷ pids m

-- The list that stands under a pid.
abbrev pub list_at : ℕ → Map ℕ (List Pending) → List Pending
list_at pid m = or_else (Map.lookup pid m) []

pub weight-append : (l m : List Pending) → weight (l ++ m) ≡ weight l + weight m
weight-append [] m = ground arith
weight-append (p ∷ l) m = ground (arith, weight-append l m)

pub waiting-insert :
    (pid : ℕ) (l : List Pending) (m : Map ℕ (List Pending))
    → waiting (Map.insert pid l m) + weight (list_at pid m) ≡ waiting m + weight l
unfolding Map.insert Map.lookup
waiting-insert pid l [] = ground arith
waiting-insert pid l ((k, w) ∷ m) = ground (arith, waiting-insert pid l m)

waiting-delete_absent :
    (pid : ℕ) (m : Map ℕ (List Pending))
    → All (λ k. pid ≢ k) (pids m)
    → waiting (Map.delete pid m) ≡ waiting m
unfolding Map.delete
waiting-delete_absent pid [] h = refl
waiting-delete_absent pid ((k, w) ∷ m) h =
    ground (arith, h.0, waiting-delete_absent pid m h.1, nat_beq_iff k pid)

pub waiting-delete :
    (pid : ℕ) (m : Map ℕ (List Pending))
    → Unique (pids m)
    → waiting (Map.delete pid m) + weight (list_at pid m) ≡ waiting m
unfolding Map.delete Map.lookup
waiting-delete pid [] u = ground arith
waiting-delete pid ((k, w) ∷ m) u = elim (Bool-cases (k == pid)) [
  | inl e ↦ rw e (
      omega (
        arith,
        waiting-delete_absent pid m
            (subst (λ x. All (λ j. x ≢ j) (pids m)) ((nat_beq_iff k pid).0 e) u.0),
      ))
  | inr e ↦ rw e (omega (arith, waiting-delete pid m u.1))
]

-- Where pids are found after an insert and a delete.
pids-insert :
    (P : ℕ → Type 0) (pid : ℕ) (l : List Pending) (m : Map ℕ (List Pending))
    → P pid
    → All P (pids m)
    → All P (pids (Map.insert pid l m))
unfolding Map.insert
pids-insert P pid l [] p h = (p, tt)
pids-insert P pid l ((k, w) ∷ m) p h = elim (Bool-cases (k == pid)) [
  | inl e ↦ rw e (p, h.1)
  | inr e ↦ rw e (h.0, pids-insert P pid l m p h.1)
]

pids-delete :
    (P : ℕ → Type 0) (pid : ℕ) (m : Map ℕ (List Pending))
    → All P (pids m)
    → All P (pids (Map.delete pid m))
unfolding Map.delete
pids-delete P pid [] h = tt
pids-delete P pid ((k, w) ∷ m) h = elim (Bool-cases (k == pid)) [
  | inl e ↦ rw e (pids-delete P pid m h.1)
  | inr e ↦ rw e (h.0, pids-delete P pid m h.1)
]

pub insert-Unique :
    (pid : ℕ) (l : List Pending) (m : Map ℕ (List Pending))
    → Unique (pids m)
    → Unique (pids (Map.insert pid l m))
unfolding Map.insert
insert-Unique pid l [] u = (tt, tt)
insert-Unique pid l ((k, w) ∷ m) u = elim (Bool-cases (k == pid)) [
  | inl e ↦ rw e (subst (λ x. All (λ j. x ≢ j) (pids m)) ((nat_beq_iff k pid).0 e) u.0, u.1)
  | inr e ↦ rw e (
    pids-insert (λ j. k ≢ j) pid l m (λ q. false≢true (sym e ∙ (nat_beq_iff k pid).1 q)) u.0,
    insert-Unique pid l m u.1,
  )
]

pub delete-Unique :
    (pid : ℕ) (m : Map ℕ (List Pending)) → Unique (pids m) → Unique (pids (Map.delete pid m))
unfolding Map.delete
delete-Unique pid [] u = u
delete-Unique pid ((k, w) ∷ m) u = elim (Bool-cases (k == pid)) [
  | inl e ↦ rw e (delete-Unique pid m u.1)
  | inr e ↦ rw e (pids-delete (λ j. k ≢ j) pid m u.0, delete-Unique pid m u.1)
]

-- A pending of the key stands in the list under the reference.
abbrev pub Waits : ℕ → DenialKey → List Pending → Type 0
Waits ref key [] = ⊥
Waits ref key (p ∷ ps) = ((p.ref ≡ ref) × (key_of p.d ≡ key)) ⊎ Waits ref key ps

pub Waits-left :
    (ref : ℕ) (key : DenialKey) (l m : List Pending) → Waits ref key l → Waits ref key (l ++ m)
Waits-left ref key [] m h = elim h [ ]
Waits-left ref key (p ∷ l) m (inl h) = inl h
Waits-left ref key (p ∷ l) m (inr h) = inr (Waits-left ref key l m h)

pub Waits-right :
    (ref : ℕ) (key : DenialKey) (l m : List Pending) → Waits ref key m → Waits ref key (l ++ m)
Waits-right ref key [] m h = h
Waits-right ref key (p ∷ l) m h = inr (Waits-right ref key l m h)

-- `p.count += n` through a pointer that leads somewhere adds `n` once.
pub weight-bump :
    (ref n : ℕ) (key : DenialKey) (l : List Pending)
    → Waits ref key l
    → weight (bump ref n l) ≡ weight l + n
unfolding bump
weight-bump ref n key [] h = elim h [ ]
weight-bump ref n key (p ∷ l) h = elim (Bool-cases (p.ref == ref)) [
  | inl e ↦ rw e (omega arith)
  | inr e ↦ rw e (elim h [
    | inl q ↦ elim (false≢true (sym e ∙ (nat_beq_iff p.ref ref).1 q.0)) [ ]
    | inr q ↦ omega (arith, weight-bump ref n key l q)
  ])
]

pub bump-Waits :
    (r ref n : ℕ) (key : DenialKey) (l : List Pending) → Waits r key l → Waits r key (bump ref n l)
unfolding bump
bump-Waits r ref n key [] h = h
bump-Waits r ref n key (p ∷ l) h = elim (Bool-cases (p.ref == ref)) [
  | inl e ↦ rw e h
  | inr e ↦ rw e (elim h [ inl q ↦ inl q | inr q ↦ inr (bump-Waits r ref n key l q) ])
]

-- What the correlator's lists of pendings keep to: one list for each pid, pointers that lead to a
-- pending of their key, and rows that are there.
pub record Sound {D : Type 0} (tally : Tally D) (s : State D) : Type 0 where
  pub one_list : Unique (pids s.pending_by_pid)
  pub leads :
      (key : DenialKey) (ref : ℕ)
      → Map.lookup key s.last_pending ≡ some ref
      → Waits ref key (list_at key.0 s.pending_by_pid)
  pub known : Known tally s

-- The process of every pending was seen.
pub record AllSeen {D : Type 0} (s : State D) : Type 0 where
  pub seen_at :
      (pid : ℕ)
      → All
          (λ (p : Pending). is_some (Map.lookup p.d.pid s.seen) ≡ true)
          (list_at pid s.pending_by_pid)

-- From `s` to `t` `gain` denials came and `lost` went; all others are counted or wait.
pub record Moves {D : Type 0} (tally : Tally D) (gain lost : ℕ) (s t : State D) : Type 0 where
  pub total :
      tally.counted t.db + waiting t.pending_by_pid + lost
      ≡ tally.counted s.db + waiting s.pending_by_pid + gain
  pub sound : Sound tally t
  pub stays_seen :
      (pid : ℕ) → is_some (Map.lookup pid s.seen) ≡ true → is_some (Map.lookup pid t.seen) ≡ true

-- `setPending`, on the map.
abbrev pub put_list : ℕ → List Pending → Map ℕ (List Pending) → Map ℕ (List Pending)
put_list pid [] m = Map.delete pid m
put_list pid (p ∷ ps) m = Map.insert pid (p ∷ ps) m

pub waiting-put_list :
    (pid : ℕ) (l : List Pending) (m : Map ℕ (List Pending))
    → Unique (pids m)
    → waiting (put_list pid l m) + weight (list_at pid m) ≡ waiting m + weight l
waiting-put_list pid [] m u = omega (arith, waiting-delete pid m u)
waiting-put_list pid (p ∷ ps) m u = waiting-insert pid (p ∷ ps) m

pub put_list-Unique :
    (pid : ℕ) (l : List Pending) (m : Map ℕ (List Pending))
    → Unique (pids m)
    → Unique (pids (put_list pid l m))
put_list-Unique pid [] m u = delete-Unique pid m u
put_list-Unique pid (p ∷ ps) m u = insert-Unique pid (p ∷ ps) m u

pub list_at-put_list :
    (pid k : ℕ) (l : List Pending) (m : Map ℕ (List Pending))
    → list_at k (put_list pid l m) ≡ (if pid == k then l else list_at k m)
list_at-put_list pid k [] m = ground (arith, Map.lookup-delete pid k m)
list_at-put_list pid k (p ∷ ps) m = ground (arith, Map.lookup-insert pid k (p ∷ ps) m)

pub list_at-insert :
    (pid k : ℕ) (l : List Pending) (m : Map ℕ (List Pending))
    → list_at k (Map.insert pid l m) ≡ (if pid == k then l else list_at k m)
list_at-insert pid k l m = ground (arith, Map.lookup-insert pid k l m)

pub at_pid :
    (P : List Pending → Type 0) (pid k : ℕ) (here there : List Pending)
    → (pid ≡ k → P here)
    → (pid ≢ k → P there)
    → P (if pid == k then here else there)
at_pid P pid k here there f g = elim (Bool-cases (pid == k)) [
  | inl e ↦ rw e (f ((nat_beq_iff pid k).0 e))
  | inr e ↦ rw e (g (λ q. false≢true (sym e ∙ (nat_beq_iff pid k).1 q)))
]
