-- ===== src/Command/Untouched.antt =====
-- What the commands of cmd/buckle/main.go have done when they reject the command line.
use buckle.Base.{
  ℕ, Bool, true, false, ◌||◌, Bytes, codes, List, [], ◌∷◌, Option, none, some, if◌then◌else◌, ◌==◌,
  bytes_eq, ◌≡◌, refl, ◌∙◌, arith,
}
use buckle.Base.Int.{ℤ}
use buckle.Exec.{Result}
use buckle.Command.{
  usage_error, help_asked, other, Answer, done, stop, Act, ShipFlags, QueryFlags, Opened, opened,
  missing, broken, Owner, Outside,
}
use buckle.Command.Commands.{
  parsed, migrated, cmd_watch, cmd_migrate, cmd_ship, ship_open, ship_at, with_answer, read_only,
}
use buckle.Command.Queries.{
  parse_flags, checked, filter, open_store, query_id, query_list, query_run, cmd_query,
}
use buckle.Command.Dispatch.{command, exit_of, run}
use buckle.Command.Usage.{
  is_usage, NoUsage, NoUsage-pure, NoUsage-other, NoUsage-lift, NoUsage-lift_result,
  NoUsage-finally, NoUsage-if, NoUsage-run_on, NoUsage-bind, Quiet, Untouched, Untouched-NoUsage,
  Untouched-fail, Untouched-if, Quiet-pure, Quiet-fail, Quiet-if, Quiet-bind, Untouched-bind,
}

ruleset no_usage = (
  NoUsage-pure, NoUsage-other, NoUsage-lift, NoUsage-lift_result, NoUsage-finally, NoUsage-if,
  NoUsage-run_on, NoUsage-bind,
)

ruleset untouched = (
  Untouched-NoUsage, Untouched-fail, Untouched-if, Quiet-pure, Quiet-fail, Quiet-if, Quiet-bind,
  Untouched-bind,
)

neither : (a b : Bool) → (a || b) ≡ false → (a ≡ false) × (b ≡ false)
neither a b h = ground arith

module _ {W S : Type 0} (out : Outside W S) where
  read_only-NoUsage : (path : Bytes) (o : Opened S) → NoUsage (read_only out path o)
  read_only-NoUsage path (opened s) = search no_usage
  read_only-NoUsage path missing = search no_usage
  read_only-NoUsage path (broken e) = search no_usage

  with_answer-NoUsage :
      {A B : Type 0} (m : W → A × W) (f : A → Act W B)
      → ((a : A) → NoUsage (f a))
      → NoUsage (with_answer out m f)
  unfolding with_answer
  with_answer-NoUsage m f h = record { at = λ w. (h (m w).0).at (m w).1 }

  open_store-NoUsage : (q : QueryFlags) → NoUsage (open_store out q)
  unfolding open_store
  open_store-NoUsage q = search (no_usage, with_answer-NoUsage, read_only-NoUsage)

  migrated-NoUsage : (path : Bytes) (o : Opened (Bytes × Bool)) → NoUsage (migrated out path o)
  migrated-NoUsage path (opened (inst, true)) = NoUsage-run_on _
  migrated-NoUsage path (opened (inst, false)) = NoUsage-run_on _
  migrated-NoUsage path missing = NoUsage-other _
  migrated-NoUsage path (broken e) = NoUsage-other _

  ship_open-NoUsage :
      (flags : ShipFlags) (path : Bytes) (s : S) → NoUsage (ship_open out flags path s)
  ship_open-NoUsage flags path s = search no_usage depth 9

  ship_at-NoUsage : (flags : ShipFlags) (o : Owner) → NoUsage (ship_at out flags o)
  ship_at-NoUsage flags o =
      search (no_usage, with_answer-NoUsage, read_only-NoUsage, ship_open-NoUsage)

  module _ {X : Type 0} (obs : W → X) where
    Untouched-unless :
        {A : Type 0} (b : Bool) (m n : Act W A)
        → b ≡ false
        → Untouched obs n
        → Untouched obs (if b then m else n)
    Untouched-unless b m n h k = ground arith

    exit_if :
        (b : Bool) (x y : ℕ × W) (w : W)
        → x.0 ≡ 0
        → (y.0 ≡ 2 → obs y.1 ≡ obs w)
        → (if b then x else y).0 ≡ 2
        → obs (if b then x else y).1 ≡ obs w
    exit_if true x y w h k e = ground arith
    exit_if false x y w h k e = k e

    parsed-Quiet :
        {A : Type 0} (parse : W → Option (Result A) × W)
        → ((w : W) → obs (parse w).1 ≡ obs w)
        → Quiet obs (parsed parse)
    parsed-Quiet parse h = record { at = h }

    module _ (print_quiet : (b : Bytes) (w : W) → obs (out.print_err b w) ≡ obs w)
        (watch_quiet : (args : List Bytes) (w : W) → obs (out.parse_watch args w).1 ≡ obs w)
        (migrate_quiet : (args : List Bytes) (w : W) → obs (out.parse_migrate args w).1 ≡ obs w)
        (ship_quiet : (args : List Bytes) (w : W) → obs (out.parse_ship args w).1 ≡ obs w)
        (query_quiet : (name : Bytes) (filters : Bool) (args : List Bytes) (w : W)
          → obs (out.parse_query name filters args w).1 ≡ obs w) where
      cmd_watch-Untouched : (args : List Bytes) → Untouched obs (cmd_watch out args)
      unfolding cmd_watch
      cmd_watch-Untouched args = search (no_usage, untouched, parsed-Quiet, watch_quiet)

      cmd_migrate-Untouched : (args : List Bytes) → Untouched obs (cmd_migrate out args)
      unfolding cmd_migrate
      cmd_migrate-Untouched args =
          search
            (
              no_usage, untouched, parsed-Quiet, migrate_quiet, with_answer-NoUsage,
              migrated-NoUsage,
            )
            depth 9

      cmd_ship-Untouched : (args : List Bytes) → Untouched obs (cmd_ship out args)
      unfolding cmd_ship
      cmd_ship-Untouched args =
          search (no_usage, untouched, parsed-Quiet, ship_quiet, ship_at-NoUsage) depth 9

      checked-Quiet :
          {V : Type 0} (format : Bytes) (v : V) (rest : List Bytes)
          → Quiet obs (checked out format v rest)
      checked-Quiet format v [] = search untouched
      checked-Quiet format v (a ∷ rest) = search untouched

      parse_flags-Quiet :
          (name : Bytes) (filters : Bool) (args : List Bytes)
          → Quiet obs (parse_flags out name filters args)
      unfolding parse_flags
      parse_flags-Quiet name filters args =
          search (untouched, parsed-Quiet, query_quiet, checked-Quiet)

      filter-Quiet : (q : QueryFlags) → Quiet obs (filter out q)
      unfolding filter
      filter-Quiet q = record { at = λ w. refl }

      query_list-Untouched :
          (what : Bytes) (args : List Bytes) → Untouched obs (query_list out what args)
      unfolding query_list
      query_list-Untouched what args =
          search (no_usage, untouched, parse_flags-Quiet, filter-Quiet, open_store-NoUsage) depth 9

      query_id-Untouched :
          (given : Bytes) (args : List Bytes) (id : Option ℤ)
          → Untouched obs (query_id out given args id)
      query_id-Untouched given args none = Untouched-fail obs _
      query_id-Untouched given args (some id) =
          search (no_usage, untouched, parse_flags-Quiet, open_store-NoUsage) depth 9

      query_run-Untouched : (args : List Bytes) → Untouched obs (query_run out args)
      unfolding query_run
      query_run-Untouched [] = Untouched-fail obs _
      query_run-Untouched (given ∷ args) = query_id-Untouched given args _

      cmd_query-Untouched : (args : List Bytes) → Untouched obs (cmd_query out args)
      unfolding cmd_query
      cmd_query-Untouched [] = Untouched-fail obs _
      cmd_query-Untouched (what ∷ args) =
          search (untouched, query_list-Untouched, query_run-Untouched)

      exited :
          (usage : Bytes) (w : W) (r : Answer (Unit {0})) (v : W)
          → (is_usage r ≡ true → obs v ≡ obs w)
          → (exit_of out usage r v).0 ≡ 2
          → obs (exit_of out usage r v).1 ≡ obs w
      unfolding exit_of is_usage
      exited usage w (done a) v h e = ground arith
      exited usage w (stop help_asked) v h e = ground arith
      exited usage w (stop (other b)) v h e = ground arith
      exited usage w (stop (usage_error b)) v h e = print_quiet _ v ∙ h refl

      exit_of-Untouched :
          (usage : Bytes) (m : Act W (Unit {0})) (w : W)
          → Untouched obs m
          → (exit_of out usage (m w).0 (m w).1).0 ≡ 2
          → obs (exit_of out usage (m w).0 (m w).1).1 ≡ obs w
      unfolding exit_of is_usage
      exit_of-Untouched usage m w h e = exited usage w (m w).0 (m w).1 (h.at w) e

      command-Untouched :
          (name : Bytes) (args : List Bytes)
          → (name == codes "serve" || name == codes "report") ≡ false
          → Untouched obs (command out name args)
      unfolding command
      command-Untouched name args h =
          let both = neither (name == codes "serve") (name == codes "report") h in
          let p = both.0 in
          let q = both.1 in
          search
            (
              untouched, Untouched-unless, cmd_watch-Untouched, cmd_migrate-Untouched,
              cmd_ship-Untouched, cmd_query-Untouched,
            )
            depth 9

      -- Where no command line is parsed with an effect on what is observed, and no error printed with
      -- one, `run` has not changed it when the exit status is 2, unless the command is `serve` or
      -- `report`.
      pub run-Untouched :
          (usage name : Bytes) (args : List Bytes) (w : W)
          → (name == codes "serve" || name == codes "report") ≡ false
          → (run out usage (name ∷ args) w).0 ≡ 2
          → obs (run out usage (name ∷ args) w).1 ≡ obs w
      unfolding run
      run-Untouched usage name args w h e =
          exit_if (name == codes "version") (0, out.print_out (codes "buckle 0.1.0-dev\n") w) _ w
            refl
            (exit_if (name == codes "-h" || name == codes "--help" || name == codes "help")
              (0, out.print_out usage w) _ w refl
              (exit_of-Untouched usage (command out name args) w (command-Untouched name args h)))
            e
