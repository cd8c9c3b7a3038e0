-- ===== src/Store/Prune.antt =====
-- internal/store/prune.go: deleting what is older than a cutoff. The cascades are those of the
-- foreign keys in internal/store/schema.go, on rows whose references hold.
pub mod Referenced
use buckle.Base.{
  ℕ, ◌+◌, ◌-◌, Bool, true, false, not, ◌&&◌, ◌||◌, Bytes, List, [], ◌∷◌, Option, none, some,
  is_some, if◌then◌else◌, ◌==◌, Eq, ltb, nat_eq, bytes_eq, length,
}
use buckle.Base.Map
use buckle.Base.Map.{Map}
use buckle.Rows
use buckle.Store.{Tables, RunRow, ProcessRow, WatchRow}

module _ {K R : Type 0} where
  -- `DELETE FROM …` of the rows that fail the test
  unfoldable pub keep : (K → R → Bool) → Map K R → Map K R
  keep p [] = []
  keep p ((k, r) ∷ m) = let rest = keep p m in if p k r then (k, r) ∷ rest else rest

module _ {R : Type 0} where
  abbrev pub has_id : ℕ → Map ℕ R → Bool
  has_id id m = is_some (Map.lookup id m)

  -- `ON DELETE SET NULL`
  abbrev pub detach : Map ℕ R → Option ℕ → Option ℕ
  detach m none = none
  detach m (some id) = if has_id id m then some id else none

module _ {K : Type 0} ⦃e : Eq K⦄ where
  abbrev pub refers : K → Option K → Bool
  refers k none = false
  refers k (some j) = j == k

-- `EXISTS (SELECT 1 FROM runs WHERE runs.session_id = sessions.id)`, and for profiles and watches
unfoldable pub names_session : Map ℕ RunRow → ℕ → Bool
names_session [] id = false
names_session ((i, r) ∷ m) id = refers id r.session_id || names_session m id

unfoldable pub names_profile : Map ℕ RunRow → Bytes → Bool
names_profile [] h = false
names_profile ((i, r) ∷ m) h = refers h r.profile_hash || names_profile m h

unfoldable pub names_watch : Map ℕ RunRow → ℕ → Bool
names_watch [] id = false
names_watch ((i, r) ∷ m) id = r.written.watch_id == id || names_watch m id

unfoldable pub orphan_of : Map ℕ Rows.Orphan → ℕ → Bool
orphan_of [] id = false
orphan_of ((i, o) ∷ m) id = o.watch_id == id || orphan_of m id

abbrev detach_run : Map ℕ RunRow → RunRow → RunRow
detach_run kept r = record r {
  written = record (r.written) { parent_run_id = detach kept r.written.parent_run_id };
}

abbrev detach_process : Map ℕ ProcessRow → ProcessRow → ProcessRow
detach_process kept p = record p {
  written = record (p.written) {
    parent_process_id = detach kept p.written.parent_process_id;
    exec_prev_process_id = detach kept p.written.exec_prev_process_id;
  };
}

module _ {R : Type 0} where
  unfoldable pub each : (R → R) → Map ℕ R → Map ℕ R
  each f [] = []
  each f ((i, r) ∷ m) = (i, f r) ∷ each f m

unfoldable keep_env : Map ℕ RunRow → List (ℕ × (Bytes × Bytes)) → List (ℕ × (Bytes × Bytes))
keep_env runs [] = []
keep_env runs ((id, kv) ∷ l) =
    let rest = keep_env runs l in if has_id id runs then (id, kv) ∷ rest else rest

-- The rows of runs and what hangs on them, behind the first statement.
unfoldable pub prune_runs : ℕ → Tables → Tables
unfolding keep each keep_env
prune_runs cutoff s =
    let left = keep (λ i r. not (ltb r.written.started_at cutoff)) s.runs in
    let processes = keep (λ i p. has_id p.written.run_id left) s.processes in
    record s {
      runs = each (detach_run left) left;
      run_env = keep_env left s.run_env;
      processes = each (detach_process processes) processes;
      denials = keep (λ i d. has_id d.run_id left && has_id d.process_id processes) s.denials;
    }

-- The other statements, on the runs that are left.
unfoldable pub prune_rest : ℕ → Tables → Tables
unfolding keep names_session names_profile names_watch orphan_of
prune_rest cutoff s =
    let orphans = keep (λ i o. not (ltb o.time cutoff)) s.orphans in
    record s {
      orphans = orphans;
      watches =
          keep (λ i w. not (ltb w.started_at cutoff) || names_watch s.runs i || orphan_of orphans i)
            s.watches;
      sessions = keep (λ i r. names_session s.runs i) s.sessions;
      profiles = keep (λ h t. names_profile s.runs h) s.profiles;
    }

-- `Prune`, but for the counts of the deleted rows
unfoldable pub prune : ℕ → ℕ → Tables → Tables
unfolding prune_runs prune_rest
prune now max_age s = prune_rest (now - max_age) (prune_runs (now - max_age) s)
