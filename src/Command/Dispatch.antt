-- ===== src/Command/Dispatch.antt =====
-- `run` of cmd/buckle/main.go: a command line to its command, and an error to the exit status.
use buckle.Base.{ℕ, Bytes, codes, List, [], ◌∷◌, ◌++◌, if◌then◌else◌, ◌==◌, ◌||◌, bytes_eq}
use buckle.Command.{usage_error, help_asked, other, Answer, done, stop, Act, fail, Outside}
use buckle.Command.Commands.{cmd_watch, cmd_migrate, cmd_serve, cmd_ship}
use buckle.Command.Queries.{cmd_query, cmd_report}

module _ {W S : Type 0} (out : Outside W S) where
  -- the commands that may fail
  unfoldable pub command : Bytes → List Bytes → Act W (Unit {0})
  unfolding cmd_watch cmd_migrate cmd_serve cmd_ship cmd_query cmd_report fail
  command name args =
      if name == codes "watch"
      then cmd_watch out args
      else if name == codes "migrate"
      then cmd_migrate out args
      else if name == codes "serve"
      then cmd_serve out args
      else if name == codes "ship"
      then cmd_ship out args
      else if name == codes "query"
      then cmd_query out args
      else if name == codes "report"
      then cmd_report out args
      else fail (usage_error (codes "unknown command " ++ out.quoted name))

-- The text `usage` is an argument.
module _ {W S : Type 0} (out : Outside W S) (usage : Bytes) where
  -- the exit status, and what is printed for an error
  unfoldable pub exit_of : Answer (Unit {0}) → W → ℕ × W
  exit_of (done _) w = (0, w)
  exit_of (stop help_asked) w = (0, w)
  exit_of (stop (usage_error e)) w =
      (2, out.print_err (codes "buckle: " ++ e ++ codes "\n\n" ++ usage) w)
  exit_of (stop (other e)) w = (1, out.print_err (codes "buckle: " ++ e ++ codes "\n") w)

  -- `run`
  unfoldable pub run : List Bytes → W → ℕ × W
  unfolding command exit_of
  run [] w = (2, out.print_err usage w)
  run (name ∷ args) w =
      if name == codes "version"
      then (0, out.print_out (codes "buckle 0.1.0-dev\n") w)
      else if name == codes "-h" || name == codes "--help" || name == codes "help"
      then (0, out.print_out usage w)
      else let (r, v) = command out name args w in exit_of r v
