-- ===== src/Correlate/ProfileFile.antt =====
-- internal/correlate/profile.go: how the profile of `sandbox-exec -f` is read. The file system is an
-- argument.
pub mod Refuses
use buckle.Base.{
  Bool, true, ◌||◌, Bytes, codes, ◌++◌, Option, none, some, if◌then◌else◌, ltb, length, bytes_eq,
  ◌==◌, has_prefix, ℕ, ◌+◌,
}
use buckle.Base.Int.{ℤ, pos, ltb_ℤ}
use buckle.Exec.{Result, ok, err}

-- `maxProfileSize`
abbrev pub max_profile_size : ℕ
max_profile_size = 1_048_576

-- What `Stat` tells of a file.
pub record Stat : Type 0 where
  pub is_regular : Bool
  pub type_name : Bytes
  pub size : ℤ

-- A file that is open: `read n` reads all of it, or its first `n` bytes.
pub record File : Type 0 where
  pub stat : Result Stat
  pub read : ℕ → Result Bytes

pub record Files : Type 0 where
  pub eval_symlinks : Bytes → Result Bytes
  pub open_file : Bytes → Result File

-- `devPathError`
unfoldable pub dev_path_error : Bytes → Bytes → Option Bytes
dev_path_error orig p =
    if p == codes "/dev/stdin" || has_prefix p (codes "/dev/fd/")
    then some
        (codes "profile passed by file descriptor (" ++ orig ++ codes "); contents unavailable")
    else if p == codes "/dev" || has_prefix p (codes "/dev/")
    then some (orig ++ codes " is a device, not a profile file")
    else none

abbrev pub too_large : Bytes → Bytes
too_large path = path ++ codes " is larger than 1 MiB"

-- behind `ReadAll`
abbrev pub bounded : Bytes → Result Bytes → Result Bytes
bounded path (err e) = err e
bounded path (ok b) = if ltb max_profile_size (length b) then err (too_large path) else ok b

-- behind `Stat`
abbrev pub read_known : Bytes → File → Result Stat → Result Bytes
read_known path f (err e) = err e
read_known path f (ok st) =
    if st.is_regular
    then if ltb_ℤ (pos max_profile_size) st.size
      then err (too_large path)
      else bounded path (f.read (max_profile_size + 1))
    else err (path ++ codes " is not a regular file (" ++ st.type_name ++ codes ")")

-- behind `OpenFile`
abbrev pub read_opened : Bytes → Result File → Result Bytes
read_opened path (err e) = err e
read_opened path (ok f) = read_known path f f.stat

module _ (files : Files) where
  -- behind the second test for a device
  abbrev pub open_unless : Option Bytes → Bytes → Bytes → Result Bytes
  open_unless (some e) path resolved = err e
  open_unless none path resolved = read_opened path (files.open_file resolved)

  -- behind `EvalSymlinks`
  abbrev pub read_resolved : Bytes → Result Bytes → Result Bytes
  read_resolved path (err e) = err e
  read_resolved path (ok resolved) = open_unless (dev_path_error path resolved) path resolved

  abbrev pub resolve_unless : Option Bytes → Bytes → Result Bytes
  resolve_unless (some e) path = err e
  resolve_unless none path = read_resolved path (files.eval_symlinks path)

  -- `readProfileFile`
  unfoldable pub read_profile_file : Bytes → Result Bytes
  unfolding dev_path_error
  read_profile_file path = resolve_unless (dev_path_error path path) path
