-- ===== src/Correlate/ProfileFile/Refuses.antt =====
-- Which files internal/correlate/profile.go reads.
use buckle.Base.{
  true, false, ◌||◌, Bytes, codes, ◌++◌, Option, none, some, ◌≡◌, ◌≢◌, ◌≤◌, refl, subst, sym, ap,
  arith, ltb, length, bytes_eq, bytes_beq, ◌==◌, has_prefix, strip_prefix-append, ◌+◌, Bool-cases,
  inl, inr, is_some,
}
use buckle.Base.Int.{pos, ltb_ℤ}
use buckle.Exec.{Result, ok, err}
use buckle.Correlate.ProfileFile.{
  Stat, File, Files, max_profile_size, dev_path_error, bounded, read_known, read_opened,
  open_unless, read_resolved, resolve_unless, read_profile_file,
}

-- A path that is neither /dev nor below it.
pub record NotDevice (p : Bytes) : Type 0 where
  pub not_dev : p ≢ codes "/dev"
  pub not_below : (rest : Bytes) → p ≢ codes "/dev/" ++ rest

-- What the file at `path` is, if `b` is read of it.
pub record Reads (files : Files) (path b : Bytes) : Type 0 where
  pub path_is_no_device : NotDevice path
  pub resolved : Bytes
  pub resolved_is : files.eval_symlinks path ≡ ok resolved
  pub resolved_is_no_device : NotDevice resolved
  pub file : File
  pub file_is : files.open_file resolved ≡ ok file
  pub stat : Stat
  pub stat_is : file.stat ≡ ok stat
  pub regular : stat.is_regular ≡ true
  pub size_in_bound : ltb_ℤ (pos max_profile_size) stat.size ≡ false
  pub all_of_it : file.read (max_profile_size + 1) ≡ ok b
  pub in_bound : length b ≤ max_profile_size

-- The second test alone refuses a path.
dev_path_error_below :
    (orig p : Bytes)
    → (p == codes "/dev" || has_prefix p (codes "/dev/")) ≡ true
    → dev_path_error orig p ≢ none
unfolding dev_path_error
dev_path_error_below orig p below h =
    elim (Bool-cases (p == codes "/dev/stdin" || has_prefix p (codes "/dev/fd/"))) [
      | inl e ↦ cc
      | inr e ↦ cc
    ]

has_prefix-append : (p rest : Bytes) → has_prefix (p ++ rest) p ≡ true
has_prefix-append p rest = ap is_some (strip_prefix-append p rest)

dev_path_error-NotDevice : (orig p : Bytes) → dev_path_error orig p ≡ none → NotDevice p
unfolding bytes_beq
dev_path_error-NotDevice orig p h = record {
  not_dev = λ e.
      dev_path_error_below orig p
        (subst (λ q. (q == codes "/dev" || has_prefix q (codes "/dev/")) ≡ true) (sym e) refl) h;
  not_below = λ rest e.
      dev_path_error_below orig p
        (subst (λ q. (q == codes "/dev" || has_prefix q (codes "/dev/")) ≡ true) (sym e)
          (has_prefix-append (codes "/dev/") rest))
        h;
}

bounded_ok :
    (path b : Bytes) (r : Result Bytes)
    → bounded path r ≡ ok b
    → (r ≡ ok b) × length b ≤ max_profile_size
bounded_ok path b (err e) h = cc
bounded_ok path b (ok c) h = elim (Bool-cases (ltb max_profile_size (length c))) [
  | inl e ↦ cc
  | inr e ↦ ground arith
]

module _ (files : Files) (path b : Bytes) where
  read_known-Reads :
      NotDevice path
      → (resolved : Bytes) → files.eval_symlinks path ≡ ok resolved
      → NotDevice resolved
      → (f : File) → files.open_file resolved ≡ ok f
      → (st : Result Stat) → f.stat ≡ st
      → read_known path f st ≡ ok b
      → Reads files path b
  read_known-Reads n resolved r n' f o (err e) s h = cc
  read_known-Reads n resolved r n' f o (ok st) s h = elim (Bool-cases st.is_regular) [
    | inr e ↦ cc
    | inl e ↦ elim (Bool-cases (ltb_ℤ (pos max_profile_size) st.size)) [
      | inl g ↦ cc
      | inr g ↦ record {
        path_is_no_device = n;
        resolved = resolved;
        resolved_is = r;
        resolved_is_no_device = n';
        file = f;
        file_is = o;
        stat = st;
        stat_is = s;
        regular = e;
        size_in_bound = g;
        all_of_it = (bounded_ok path b (f.read (max_profile_size + 1)) cc).0;
        in_bound = (bounded_ok path b (f.read (max_profile_size + 1)) cc).1;
      }
    ]
  ]

  read_opened-Reads :
      NotDevice path
      → (resolved : Bytes) → files.eval_symlinks path ≡ ok resolved
      → NotDevice resolved
      → (f : Result File) → files.open_file resolved ≡ f
      → read_opened path f ≡ ok b
      → Reads files path b
  read_opened-Reads n resolved r n' (err e) o h = cc
  read_opened-Reads n resolved r n' (ok f) o h = read_known-Reads n resolved r n' f o f.stat refl h

  open_unless-Reads :
      NotDevice path
      → (resolved : Bytes) → files.eval_symlinks path ≡ ok resolved
      → (d : Option Bytes) → dev_path_error path resolved ≡ d
      → open_unless files d path resolved ≡ ok b
      → Reads files path b
  open_unless-Reads n resolved r (some e) d h = cc
  open_unless-Reads n resolved r none d h =
      read_opened-Reads n resolved r (dev_path_error-NotDevice path resolved d) _ refl h

  read_resolved-Reads :
      NotDevice path
      → (resolved : Result Bytes) → files.eval_symlinks path ≡ resolved
      → read_resolved files path resolved ≡ ok b
      → Reads files path b
  read_resolved-Reads n (err e) r h = cc
  read_resolved-Reads n (ok resolved) r h = open_unless-Reads n resolved r _ refl h

  resolve_unless-Reads :
      (d : Option Bytes)
      → dev_path_error path path ≡ d
      → resolve_unless files d path ≡ ok b
      → Reads files path b
  resolve_unless-Reads (some e) d h = cc
  resolve_unless-Reads none d h =
      read_resolved-Reads (dev_path_error-NotDevice path path d) _ refl h

  -- A profile that is read comes from a regular file of 1 MiB at most, neither named nor resolved to
  -- be /dev or anything below it, and is all that was read of it, 1 MiB at most.
  pub read_profile_file-Reads : read_profile_file files path ≡ ok b → Reads files path b
  unfolding read_profile_file
  read_profile_file-Reads h = resolve_unless-Reads _ refl h
