-- ===== src/Command/Owners.antt =====
-- Whose files buckle works on: `SudoOwner` of internal/watch/watch.go, `invokingHome` of
-- cmd/buckle/main.go, and the databases that the commands take without --db.
use buckle.Base.{
  ◌&&◌, ◌||◌, not, Bytes, codes, ◌++◌, if◌then◌else◌, ◌==◌, nat_eq, bytes_eq, is_empty,
}
use buckle.Base.Int.{ℤ}
use buckle.Exec.{Result, ok, err}
use buckle.Command.{User, Owner, Host}

abbrev pub with_ids : Bytes → Bytes → Result ℤ → Result ℤ → Result Owner
with_ids home name (err e) g = err e
with_ids home name (ok u) (err e) = err e
with_ids home name (ok u) (ok g) = ok (record { uid = u; gid = g; home = home; name = name })

module _ (quoted : Bytes → Bytes) where
  abbrev pub owner_of : (Bytes → Result ℤ) → Bytes → Result User → Result Owner
  owner_of atoi name (err e) = err (codes "look up SUDO_USER " ++ quoted name ++ codes ": " ++ e)
  owner_of atoi name (ok u) = with_ids u.home name (atoi u.uid) (atoi u.gid)

  -- `SudoOwner`
  unfoldable pub sudo_owner : Host → Bytes → Bytes → Result Owner
  sudo_owner host command reason =
      if not (host.effective_uid == 0) || is_empty host.sudo_user || host.sudo_user == codes "root"
      then err (
          codes "buckle "
          ++ command
          ++ codes " must be run with sudo from your user account ("
          ++ reason
          ++ codes ")")
      else owner_of host.atoi host.sudo_user (host.look_up_user host.sudo_user)

abbrev pub home_of : Result User → Result Bytes
home_of (err e) = err e
home_of (ok u) = ok u.home

-- `invokingHome`
unfoldable pub invoking_home : Host → Result Bytes
invoking_home host =
    if not (is_empty host.sudo_user) && host.effective_uid == 0
    then home_of (host.look_up_user host.sudo_user)
    else host.user_home
