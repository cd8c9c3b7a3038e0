-- ===== src/Command/Defaults.antt =====
-- The databases that the commands of cmd/buckle/main.go take when --db is not given.
use buckle.Base.{
  Bool, true, false, ◌&&◌, ◌||◌, not, Bytes, codes, List, [], some, is_empty, if◌then◌else◌, ◌==◌,
  nat_eq, bytes_eq, ◌≡◌, ap, ◌∙◌, arith,
}
use buckle.Base.Int.{ℤ}
use buckle.Exec.{Result, ok, err}
use buckle.Command.{
  lift, lift_result, pure, after, ◌>>=◌, WatchFlags, QueryFlags, User, Owner, Host, Outside,
}
use buckle.Command.Owners.{with_ids, owner_of, home_of, sudo_owner, invoking_home}
use buckle.Command.Commands.{
  home_path, default_path, parse_answer, watch_at, watch_with, read_only, cmd_watch, with_answer,
}
use buckle.Command.Queries.{open_store}

with_ids-home :
    (home name : Bytes) (u g : Result ℤ) (o : Owner) → with_ids home name u g ≡ ok o → home ≡ o.home
with_ids-home home name (ok u) (ok g) o e = ap (λ r. elim r [ ok p ↦ p.home | err x ↦ home ]) e
with_ids-home home name (ok u) (err x) o e = ground arith
with_ids-home home name (err x) g o e = ground arith

owner_of-home :
    (atoi : Bytes → Result ℤ) (quoted : Bytes → Bytes) (name : Bytes) (u : Result User) (o : Owner)
    → owner_of quoted atoi name u ≡ ok o
    → home_of u ≡ ok o.home
owner_of-home atoi quoted name (ok u) o e = ap ok (with_ids-home _ _ _ _ o e)
owner_of-home atoi quoted name (err x) o e = ground arith

guarded-home :
    (root empty named : Bool) (why : Bytes) (r : Result Owner) (h u : Result Bytes) (o : Owner)
    → (r ≡ ok o → h ≡ ok o.home)
    → (if not root || empty || named then err why else r) ≡ ok o
    → (if not empty && root then h else u) ≡ ok o.home
guarded-home true false false why r h u o k e = k e
guarded-home true false true why r h u o k e = ground arith
guarded-home true true named why r h u o k e = ground arith
guarded-home false empty named why r h u o k e = ground arith

-- Where `SudoOwner` answers, `invokingHome` answers the same home.
invoking_home-sudo_owner :
    (quoted : Bytes → Bytes) (host : Host) (command reason : Bytes) (o : Owner)
    → sudo_owner quoted host command reason ≡ ok o
    → invoking_home host ≡ ok o.home
unfolding sudo_owner invoking_home
invoking_home-sudo_owner quoted host command reason o e =
    guarded-home (host.effective_uid == 0) (is_empty host.sudo_user)
      (host.sudo_user == codes "root") _ _ _ _ o
      (owner_of-home host.atoi quoted host.sudo_user (host.look_up_user host.sudo_user) o) e

module _ {W S : Type 0} (out : Outside W S) where
  open_store-home :
      (q : QueryFlags) (w : W) (home : Bytes)
      → q.db ≡ []
      → invoking_home out.host ≡ ok home
      → open_store out q w
        ≡ with_answer out
            (out.open_read_only (out.host.path_for_home home))
            (read_only out (out.host.path_for_home home))
            w
  unfolding open_store ◌>>=◌ with_answer lift_result pure
  open_store-home q w home e h =
      let pf = out.host.path_for_home in
      let k = λ (path : Bytes). with_answer out (out.open_read_only path) (read_only out path) in
      ap (λ b. (home_path out b pf (invoking_home out.host) >>= k) w) e
      ∙ ap (λ r. (home_path out [] pf r >>= k) w) h

  cmd_watch-home :
      (args : List Bytes) (flags : WatchFlags) (w v : W) (o : Owner)
      → flags.db ≡ []
      → out.parse_watch args w ≡ (some (ok (record { values = flags; rest = [] })), v)
      → sudo_owner out.quoted out.host (codes "watch") (codes "eslogger needs root") ≡ ok o
      → cmd_watch out args w ≡ lift (out.watch_run (out.host.path_for_home o.home) o flags.buffer) v
  unfolding cmd_watch ◌>>=◌ with_answer lift_result pure
  cmd_watch-home args flags w v o e h k =
      ap (λ x. after (parse_answer x.0) (watch_with out) x.1) h
      ∙ (ap (λ r. (lift_result r >>= watch_at out flags) v) k
          ∙ ap
              (λ b.
                lift
                  (out.watch_run (default_path out b (out.host.path_for_home o.home)) o
                    flags.buffer)
                  v)
              e)

  -- Where both commands come without --db from one user under sudo, `query` and `report` open the
  -- database that `watch` keeps.
  pub same_database :
      (args : List Bytes) (flags : WatchFlags) (q : QueryFlags) (w v u : W) (o : Owner)
      → flags.db ≡ []
      → q.db ≡ []
      → out.parse_watch args w ≡ (some (ok (record { values = flags; rest = [] })), v)
      → sudo_owner out.quoted out.host (codes "watch") (codes "eslogger needs root") ≡ ok o
      → (path : Bytes) × ((cmd_watch out args w ≡ lift (out.watch_run path o flags.buffer) v)
          × (open_store out q u ≡ with_answer out (out.open_read_only path) (read_only out path) u))
  same_database args flags q w v u o e f h k = (
    out.host.path_for_home o.home,
    (
      cmd_watch-home args flags w v o e h k,
      open_store-home q u o.home f (invoking_home-sudo_owner out.quoted out.host _ _ o k),
    ),
  )
