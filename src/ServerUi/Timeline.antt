-- ===== src/ServerUi/Timeline.antt =====
-- The timeline of a run's page in internal/server/ui.go, with the rows of
-- internal/serverdb/pages.go that it reads.
pub mod Sorted
use buckle.Base.{
  ℕ, ◌+◌, Bool, true, false, Bytes, codes, List, [], ◌∷◌, ◌++◌, Option, none, some, ◌==◌, bytes_eq,
  bytes_beq, if◌then◌else◌, is_some, map,
}
use buckle.Base.Int.{ℤ, ltb_ℤ}
use buckle.Base.Number.{decimal_int}
use buckle.ServerUi.Argv.{ArgsView, new_args_view}

-- `Process`
pub record Process : Type 0 where
  pub id : ℤ
  pub pid : ℤ
  pub pidversion : Option ℤ
  pub parent_process_id : Option ℤ
  pub exec_prev_process_id : Option ℤ
  pub path : Bytes
  pub args_json : Bytes
  pub is_platform : Option Bool
  pub signing_id : Bytes
  pub team_id : Bytes
  pub started_at : Option ℤ
  pub ended_at : Option ℤ
  pub end_reason : Bytes
  pub exit_status : Option ℤ

-- `Denial`
pub record Denial : Type 0 where
  pub id : ℤ
  pub process_id : ℤ
  pub time : ℤ
  pub process_name : Bytes
  pub pid : ℤ
  pub operation : Bytes
  pub target : Bytes
  pub message : Bytes
  pub count : ℕ
  pub is_platform : Option Bool

-- `RunSummary`
pub record RunSummary : Type 0 where
  pub id : ℤ
  pub kind : Bytes
  pub status : Bytes
  pub started_at : ℤ
  pub ended_at : Option ℤ
  pub command_json : Bytes
  pub process_count : ℕ
  pub denial_count : ℕ

-- `entry`
pub record Entry : Type 0 where
  pub at : Option ℤ
  pub kind : Bytes
  pub label : Bytes
  pub process : Option Process
  pub denial : Option Denial
  pub args : Option ArgsView

-- `runTotals`
unfoldable pub run_totals : List RunSummary → ℕ × ℕ
run_totals [] = (0, 0)
run_totals (r ∷ rs) = let (p, d) = run_totals rs in (r.process_count + p, r.denial_count + d)

-- `denialTotal`
unfoldable pub denial_total : List Denial → ℕ
denial_total [] = 0
denial_total (d ∷ ds) = d.count + denial_total ds

abbrev start_label : Process → Bytes
start_label p =
    if is_some p.exec_prev_process_id
    then codes "exec"
    else if is_some p.parent_process_id
    then codes "fork"
    else codes "start"

abbrev exit_label : Option ℤ → Bytes
exit_label none = codes "exit"
exit_label (some n) = codes "exit (status " ++ (decimal_int n ++ codes ")")

-- the `switch` on the end reason
unfoldable pub end_entries : Process → List Entry
unfolding decimal_int
end_entries p =
    if p.end_reason == codes "exit"
    then record {
      at = p.ended_at;
      kind = codes "exit";
      label = exit_label p.exit_status;
      process = some p;
      denial = none;
      args = none;
    }
      ∷ []
    else if p.end_reason == codes "watch_stopped"
    then record {
      at = none;
      kind = codes "stopped";
      label = codes "watch stopped, end unknown";
      process = some p;
      denial = none;
      args = none;
    }
      ∷ []
    else []

unfoldable pub denial_entry : Denial → Entry
denial_entry d = record {
  at = some d.time;
  kind = codes "denial";
  label = codes "denial";
  process = none;
  denial = some d;
  args = none;
}

-- the comparison of the sort
unfoldable pub earlier : Entry → Entry → Bool
earlier a b = elim a.at [ none ↦ false | some s ↦ elim b.at [ none ↦ true | some t ↦ ltb_ℤ s t ] ]

-- `sort.SliceStable`: an element goes in front of the first that is not earlier than it
unfoldable pub insert_entry : Entry → List Entry → List Entry
unfolding earlier
insert_entry e [] = e ∷ []
insert_entry e (f ∷ fs) =
    let rest = insert_entry e fs in if earlier f e then f ∷ rest else e ∷ f ∷ fs

unfoldable pub sort_entries : List Entry → List Entry
unfolding insert_entry
sort_entries [] = []
sort_entries (e ∷ es) = insert_entry e (sort_entries es)

module _ (strings : Bytes → Option (List Bytes)) where
  unfoldable pub process_entries : Process → List Entry
  unfolding end_entries
  process_entries p =
      record {
        at = p.started_at;
        kind = start_label p;
        label = start_label p;
        process = some p;
        denial = none;
        args = some (new_args_view strings p.path p.args_json);
      }
      ∷ end_entries p

  unfoldable pub all_process_entries : List Process → List Entry
  unfolding process_entries
  all_process_entries [] = []
  all_process_entries (p ∷ ps) = process_entries p ++ all_process_entries ps

  -- `timeline`
  unfoldable pub timeline : List Process → List Denial → List Entry
  unfolding sort_entries all_process_entries denial_entry
  timeline processes denials =
      sort_entries (all_process_entries processes ++ map (λ d. denial_entry d) denials)
