-- ===== src/Correlate/Ledger.antt =====
-- What internal/correlate/correlator.go does to the denials that its sink counts and to those that
-- wait: each step adds, loses or moves so many of them.
pub mod Calm
pub mod Waiting
pub mod Rounds
pub mod Balance
pub mod Turns
pub mod Arrivals
pub mod Lines
pub mod Conserved
pub mod Forgets
pub mod Settles
pub mod Finals
use buckle.Base.{
  ℕ, ◌+◌, Bool, true, false, List, [], ◌∷◌, Option, none, some, ◌≡◌, refl, sym, ap, ◌∙◌, subst,
  arith, or_else, if◌then◌else◌, is_some, nat_eq, bytes_eq, pair_eq, ◌==◌, Bytes, Bool-cases, inl,
  inr,
}
use buckle.Base.Map
use buckle.Base.Map.{Map}
use buckle.Exec.{Result, ok, err, Exec, modify, gets}
use buckle.Exec.Frame.{IsPreorder, Relates, Relates-pure, Relates-bind, Relates-gets}
use buckle.Rows
use buckle.Rows.{Status, EndReason}
use buckle.Correlate.Sink.{Sink}
use buckle.Correlate.State.{State, StoredDenial, DenialKey, call}

-- What a database counts, and the rows that it has.
pub record Tally (D : Type 0) : Type 0 where
  pub counted : D → ℕ
  pub has_denial : ℕ → D → Bool
  pub has_orphan : ℕ → D → Bool

-- `n` more denials are counted, and no row is gone.
pub record Adds {D : Type 0} (tally : Tally D) (n : ℕ) (d e : D) : Type 0 where
  pub more : tally.counted e ≡ tally.counted d + n
  pub denials_stay : (id : ℕ) → tally.has_denial id d ≡ true → tally.has_denial id e ≡ true
  pub orphans_stay : (id : ℕ) → tally.has_orphan id d ≡ true → tally.has_orphan id e ≡ true

-- What the correlator relies on of its sink: inserts count, counts of rows that are there are added,
-- and nothing else changes what is counted.
pub record Ledger {D : Type 0} (sink : Sink D) : Type 0 where
  pub tally : Tally D
  pub session_adds :
      (kind key : Bytes) (t : ℕ) (d : D) → Adds tally 0 d (sink.ensure_session kind key t d).1
  pub run_adds : (row : Rows.Run) (d : D) → Adds tally 0 d (sink.insert_run row d).1
  pub set_session_adds :
      (run sid : ℕ) (tag detail : Bytes) (d : D)
      → Adds tally 0 d (sink.set_run_session run sid tag detail d).1
  pub end_run_adds :
      (run : ℕ) (t : Option ℕ) (status : Status) (d : D)
      → Adds tally 0 d (sink.end_run run t status d).1
  pub process_adds : (row : Rows.Process) (d : D) → Adds tally 0 d (sink.insert_process row d).1
  pub end_process_adds :
      (id : ℕ) (t : Option ℕ) (reason : EndReason) (status : Option ℕ) (d : D)
      → Adds tally 0 d (sink.end_process id t reason status d).1
  pub denial_adds :
      (row : Rows.Denial) (d e : D) (id : ℕ)
      → sink.insert_denial row d ≡ (ok id, e)
      → Adds tally row.count d e × (tally.has_denial id e ≡ true)
  pub orphan_adds :
      (row : Rows.Orphan) (d e : D) (id : ℕ)
      → sink.insert_orphan row d ≡ (ok id, e)
      → Adds tally row.count d e × (tally.has_orphan id e ≡ true)
  pub denial_again_adds :
      (id n : ℕ) (d e : D) (u : Unit {0})
      → tally.has_denial id d ≡ true
      → sink.add_denial_count id n d ≡ (ok u, e)
      → Adds tally n d e
  pub orphan_again_adds :
      (id n : ℕ) (d e : D) (u : Unit {0})
      → tally.has_orphan id d ≡ true
      → sink.add_orphan_count id n d ≡ (ok u, e)
      → Adds tally n d e

-- Every row that the correlator may count again is there.
pub record Known {D : Type 0} (tally : Tally D) (s : State D) : Type 0 where
  pub stored_there :
      (key : DenialKey) (sd : StoredDenial)
      → Map.lookup key s.last_stored ≡ some sd
      → tally.has_denial sd.id s.db ≡ true
  pub orphans_there :
      (key : DenialKey) (id : ℕ)
      → Map.lookup key s.last_orphan ≡ some id
      → tally.has_orphan id s.db ≡ true

-- From `s` to `t` the database counts `n` denials more, less those `lost`; the lists of what waits
-- are left alone.
pub record Step {D : Type 0} (tally : Tally D) (n lost : ℕ) (s t : State D) : Type 0 where
  pub waiting_same : t.pending_by_pid ≡ s.pending_by_pid
  pub last_shrinks :
      (key : DenialKey) (ref : ℕ)
      → Map.lookup key t.last_pending ≡ some ref
      → Map.lookup key s.last_pending ≡ some ref
  pub adds : tally.counted t.db + lost ≡ tally.counted s.db + n
  pub stays_known : Known tally s → Known tally t
  pub stays_seen :
      (pid : ℕ) → is_some (Map.lookup pid s.seen) ≡ true → is_some (Map.lookup pid t.seen) ≡ true

module _ {D : Type 0} (tally : Tally D) where
  pub Step-trans :
      (n lost m lost' : ℕ) (s t u : State D)
      → Step tally n lost s t
      → Step tally m lost' t u
      → Step tally (n + m) (lost + lost') s u
  Step-trans n lost m lost' s t u a b = record {
    waiting_same = b.waiting_same ∙ a.waiting_same;
    last_shrinks = λ key ref h. a.last_shrinks key ref (b.last_shrinks key ref h);
    adds = omega (arith, a.adds, b.adds);
    stays_known = λ h. b.stays_known (a.stays_known h);
    stays_seen = λ pid h. b.stays_seen pid (a.stays_seen pid h);
  }

  pub then_calm :
      (n lost : ℕ) (s t u : State D)
      → Step tally n lost s t
      → Step tally 0 0 t u
      → Step tally n lost s u
  then_calm n lost s t u a b =
      let c = Step-trans n lost 0 0 s t u a b in
      record {
        waiting_same = c.waiting_same;
        last_shrinks = c.last_shrinks;
        adds = omega (arith, c.adds);
        stays_known = c.stays_known;
        stays_seen = c.stays_seen;
      }

  pub calm_then :
      (n lost : ℕ) (s t u : State D)
      → Step tally 0 0 s t
      → Step tally n lost t u
      → Step tally n lost s u
  calm_then n lost s t u a b =
      let c = Step-trans 0 0 n lost s t u a b in
      record {
        waiting_same = c.waiting_same;
        last_shrinks = c.last_shrinks;
        adds = omega (arith, c.adds);
        stays_known = c.stays_known;
        stays_seen = c.stays_seen;
      }

  -- What changes none of what a step speaks of.
  pub Step-elsewhere :
      (s t : State D)
      → t.pending_by_pid ≡ s.pending_by_pid
      → t.last_pending ≡ s.last_pending
      → t.last_stored ≡ s.last_stored
      → t.last_orphan ≡ s.last_orphan
      → t.seen ≡ s.seen
      → t.db ≡ s.db
      → Step tally 0 0 s t
  Step-elsewhere s t p l st o se d = record {
    waiting_same = p;
    last_shrinks = λ key ref h. sym (ap (Map.lookup key) l) ∙ h;
    adds = ap (λ e. tally.counted e + 0) d;
    stays_known = λ h. record {
      stored_there = λ key sd e.
          ap (tally.has_denial sd.id) d ∙ h.stored_there key sd (sym (ap (Map.lookup key) st) ∙ e);
      orphans_there = λ key id e.
          ap (tally.has_orphan id) d ∙ h.orphans_there key id (sym (ap (Map.lookup key) o) ∙ e);
    };
    stays_seen = λ pid h. ap (λ m. is_some (Map.lookup pid m)) se ∙ h;
  }

  pub Step-refl : (s : State D) → Step tally 0 0 s s
  Step-refl s = Step-elsewhere s s refl refl refl refl refl refl

  pub Step-IsPreorder : IsPreorder (Step tally 0 0)
  Step-IsPreorder = record { rel_refl = Step-refl; rel_trans = Step-trans 0 0 0 0 }

  pub elsewhere-Step :
      (f : State D → State D)
      → ((s : State D) → (f s).pending_by_pid ≡ s.pending_by_pid)
      → ((s : State D) → (f s).last_pending ≡ s.last_pending)
      → ((s : State D) → (f s).last_stored ≡ s.last_stored)
      → ((s : State D) → (f s).last_orphan ≡ s.last_orphan)
      → ((s : State D) → (f s).seen ≡ s.seen)
      → ((s : State D) → (f s).db ≡ s.db)
      → Relates (Step tally 0 0) (modify f)
  unfolding modify
  elsewhere-Step f p l st o se d = record {
    at = λ s. Step-elsewhere s (f s) (p s) (l s) (st s) (o s) (se s) (d s);
  }

  -- A database that counts more.
  pub db-Step :
      (n : ℕ) (s : State D) (d : D) → Adds tally n s.db d → Step tally n 0 s (record s { db = d })
  db-Step n s d a = record {
    waiting_same = refl;
    last_shrinks = λ key ref h. h;
    adds = omega (arith, a.more);
    stays_known = λ h. record {
      stored_there = λ key sd e. a.denials_stay sd.id (h.stored_there key sd e);
      orphans_there = λ key id e. a.orphans_stay id (h.orphans_there key id e);
    };
    stays_seen = λ pid h. h;
  }

  pub call-Step {ℓ} :
      {A : Type ℓ} (m : Exec D A)
      → ((d : D) → Adds tally 0 d (m d).1)
      → Relates (Step tally 0 0) (call m)
  unfolding call
  call-Step m h = record { at = λ s. db-Step 0 s (m s.db).1 (h s.db) }
