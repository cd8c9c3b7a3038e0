-- ===== src/Command/Commands.antt =====
-- The commands of cmd/buckle/main.go that keep a database: `watch`, `migrate`, `serve` and `ship`.
use buckle.Base.{
  Bool, true, false, ◌&&◌, not, Bytes, codes, List, ◌++◌, Option, none, some, if◌then◌else◌, ◌==◌,
  nat_eq, bytes_eq, is_empty,
}
use buckle.Base.Int.{pos, ltb_ℤ}
use buckle.Base.Number.{decimal_int}
use buckle.Exec.{Result, ok, err, Exec}
use buckle.Store.Schema.{schema_version}
use buckle.Command.{
  usage_error, help_asked, other, Answer, done, stop, Act, pure, fail, lift, lift_result, finally,
  run_on, ◌>>=◌, ◌>>◌, WatchFlags, ServeFlags, ShipFlags, Parsed, Opened, opened, missing, broken,
  Owner, Outside,
}
use buckle.Command.Owners.{sudo_owner, invoking_home}

abbrev pub parse_answer : {A : Type 0} → Option (Result A) → Answer A
parse_answer none = stop help_asked
parse_answer (some (ok a)) = done a
parse_answer (some (err e)) = stop (other e)

-- `fs.Parse`
abbrev pub parsed : {W A : Type 0} → (W → Option (Result A) × W) → Act W A
parsed parse w = let (r, v) = parse w in (parse_answer r, v)

abbrev with_reason : {A : Type 0} → Bytes → Result A → Result A
with_reason why (ok a) = ok a
with_reason why (err e) = err (why ++ codes ": " ++ e)

module _ {W S : Type 0} (out : Outside W S) where
  abbrev log : Bytes → Act W (Unit {0})
  log line = run_on (out.print_err (codes "buckle: " ++ line ++ codes "\n"))

  -- a path given by --db, or the default
  abbrev pub default_path : Bytes → Bytes → Bytes
  default_path given default = if is_empty given then default else given

  abbrev pub watch_at : WatchFlags → Owner → Act W (Unit {0})
  watch_at flags owner =
      lift (
        out.watch_run (default_path flags.db (out.host.path_for_home owner.home)) owner
          flags.buffer)

  abbrev pub watch_with : Parsed WatchFlags → Act W (Unit {0})
  watch_with p =
      if not (is_empty p.rest)
      then fail (usage_error (codes "watch takes no arguments"))
      else lift_result
          (sudo_owner out.quoted out.host (codes "watch") (codes "eslogger needs root"))
        >>= watch_at p.values

  -- `cmdWatch`
  unfoldable pub cmd_watch : List Bytes → Act W (Unit {0})
  unfolding sudo_owner ◌>>=◌
  cmd_watch args = parsed (out.parse_watch args) >>= watch_with

  abbrev pub migrated : Bytes → Opened (Bytes × Bool) → Act W (Unit {0})
  migrated path missing = fail (other (codes "no buckle database at " ++ path))
  migrated path (broken e) = fail (other e)
  migrated path (opened (inst, true)) = run_on (
      out.print_out (
        codes "migrated "
        ++ path
        ++ codes " to schema v"
        ++ decimal_int schema_version
        ++ codes " (db_instance "
        ++ inst
        ++ codes ")\n"))
  migrated path (opened (inst, false)) = run_on (
      out.print_out (
        path
        ++ codes " is already schema v"
        ++ decimal_int schema_version
        ++ codes " (db_instance "
        ++ inst
        ++ codes ")\n"))

  abbrev pub home_path : Bytes → (Bytes → Bytes) → Result Bytes → Act W Bytes
  home_path given path_for_home home =
      if is_empty given then (lift_result home >>= λ h. pure (path_for_home h)) else pure given

  unfoldable pub with_answer : {A B : Type 0} → (W → A × W) → (A → Act W B) → Act W B
  with_answer m f w = let (a, v) = m w in f a v

  -- `cmdMigrate`
  unfoldable pub cmd_migrate : List Bytes → Act W (Unit {0})
  unfolding with_answer ◌>>=◌
  cmd_migrate args = parsed (out.parse_migrate args) >>= λ p.
      if not (is_empty p.rest)
      then fail (usage_error (codes "migrate takes no arguments"))
      else if out.host.effective_uid == 0
      then fail (
          other (
            codes
              "buckle migrate must run without sudo: it upgrades your own database and must leave it owned by you"))
      else home_path p.values out.host.path_for_home out.host.user_home >>= λ path.
          with_answer (out.migrate path) (migrated path)

  abbrev chowned : Bytes → Opened (Unit {0}) → Act W (Unit {0})
  chowned path (opened _) = pure tt
  chowned path missing = pure tt
  chowned path (broken e) = log (codes "warning: chown " ++ path ++ codes ": " ++ e)

  -- `chownServe` of one path
  unfoldable pub chown_serve : Owner → Bytes → Act W (Unit {0})
  unfolding run_on with_answer
  chown_serve owner path = with_answer (out.chown path owner) (chowned path)

  abbrev chown_for : Option Owner → Bytes → Act W (Unit {0})
  chown_for none path = pure tt
  chown_for (some owner) path = chown_serve owner path

  -- the owner that `serve` keeps its database for
  abbrev serve_owner : Act W (Option Owner)
  serve_owner =
      if out.host.effective_uid == 0 && not (is_empty out.host.sudo_user)
      then (lift_result (
            sudo_owner out.quoted out.host (codes "serve")
              (codes "it must leave your server database owned by you"))
          >>= λ o. pure (some o))
      else pure none

  abbrev checked_addr : Bytes → Result Bytes → Act W (Unit {0})
  checked_addr addr (err e) = fail (usage_error (codes "--addr: " ++ e))
  checked_addr addr (ok host) =
      if not (host == codes "localhost") && not (out.is_loopback host)
      then log (
          codes "warning: "
          ++ addr
          ++ codes " is not a loopback address and buckle serve has no authentication")
      else pure tt

  abbrev explained : {A : Type 0} → Bytes → Exec W A → Exec W A
  explained why m w = let (r, v) = m w in (with_reason why r, v)

  -- from the open database on
  abbrev serve_open : ServeFlags → Bytes → Option Owner → S → Act W (Unit {0})
  serve_open flags path owner s =
      chown_for owner path
      >> (checked_addr flags.addr (out.split_host flags.addr)
          >> (log (codes "serving http://" ++ flags.addr ++ codes "; database " ++ path)
              >> lift (out.serve s flags.addr flags.refresh)))

  abbrev serve_at : ServeFlags → Option Owner → Bytes → Act W (Unit {0})
  serve_at flags owner path w =
      let dir = out.dir_of path in
      let chown_dir = if out.dir_missing dir w then chown_for owner dir else pure tt in
      (lift (out.mkdir_all dir)
          >> (chown_dir
              >> (lift (explained (codes "open server database") (out.open_server path)) >>= λ s.
                  finally (serve_open flags path owner s) (out.close s))))
        w

  -- `cmdServe`
  unfoldable pub cmd_serve : List Bytes → Act W (Unit {0})
  unfolding with_answer sudo_owner invoking_home chown_serve ◌>>=◌
  cmd_serve args = parsed (out.parse_serve args) >>= λ p.
      if not (is_empty p.rest)
      then fail (usage_error (codes "serve takes no arguments"))
      else if ltb_ℤ p.values.refresh (pos 0)
      then fail (usage_error (codes "--refresh must not be negative"))
      else serve_owner >>= λ owner.
          home_path p.values.db out.host.server_path_for_home (invoking_home out.host)
          >>= serve_at p.values owner

  abbrev pub read_only : Bytes → Opened S → Act W S
  read_only path (opened s) = pure s
  read_only path missing =
      fail
        (other (codes "no buckle database at " ++ path ++ codes "; run `sudo buckle watch` first"))
  read_only path (broken e) = fail (other e)

  -- from the open database on
  abbrev pub ship_open : ShipFlags → Bytes → S → Act W (Unit {0})
  ship_open flags path s =
      lift (explained (codes "read db_instance") (out.db_instance s)) >>= λ inst.
      lift (explained (codes "host identity") out.host_identity) >>= λ host.
      let base = out.trim_slashes flags.server in
      log (
        codes "shipping "
        ++ path
        ++ codes " (host "
        ++ host.0
        ++ codes " "
        ++ host.1
        ++ codes ", db_instance "
        ++ inst
        ++ codes ") to "
        ++ base
        ++ codes " every "
        ++ out.duration_text flags.interval)
      >> lift (out.ship_run s host inst base flags.interval)

  abbrev pub ship_at : ShipFlags → Owner → Act W (Unit {0})
  ship_at flags owner =
      let path = default_path flags.db (out.host.path_for_home owner.home) in
      with_answer (out.open_read_only path) (read_only path) >>= λ s.
      finally (ship_open flags path s) (out.close s)

  -- `cmdShip`
  unfoldable pub cmd_ship : List Bytes → Act W (Unit {0})
  unfolding with_answer sudo_owner ◌>>=◌
  cmd_ship args = parsed (out.parse_ship args) >>= λ p.
      if not (is_empty p.rest)
      then fail (usage_error (codes "ship takes no arguments"))
      else if not (ltb_ℤ (pos 0) p.values.interval)
      then fail (usage_error (codes "--interval must be positive"))
      else lift_result (
          sudo_owner out.quoted out.host (codes "ship")
            (codes "the database's WAL files are root-owned while buckle watch runs"))
        >>= ship_at p.values
