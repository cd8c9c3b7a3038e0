-- ===== src/Sbx/Args/Outcome.antt =====
-- What a parsed command line says about its own success.
use buckle.Base.{ℕ, List, [], ◌∷◌, ◌++◌, ◌≡◌, refl, ◌≢◌, ◌↔◌, arith, Bytes, ◌∙◌}
use buckle.Sbx.Args.{
  ProfileSpec, unknown, Scan, next, wants, dashes, stop, apply, scan_flags, scan_arg, finish,
  missing_value, scan_args, empty_spec, parse_args, rune_bytes,
}

-- A profile source is missing exactly when there is an error text.
abbrev Explains : ProfileSpec → Type 0
Explains s = (s.source ≡ unknown) ↔ (s.err ≢ [])

abbrev NoError : Scan → Type 0
NoError (next s) = s.err ≡ []
NoError (wants s c) = s.err ≡ []
NoError dashes = Unit {0}
NoError stop = Unit {0}

err-apply : (s : ProfileSpec) (c : ℕ) (v : Bytes) → (apply s c v).err ≡ s.err
unfolding apply
err-apply s c v = ground arith

scan_flags-NoError : (s : ProfileSpec) (cs : Bytes) → s.err ≡ [] → NoError (scan_flags s cs)
unfolding scan_flags
scan_flags-NoError s [] h = h
scan_flags-NoError s (c ∷ []) h = ground arith
scan_flags-NoError s (c ∷ d ∷ cs) h = ground (
  arith,
  err-apply s c (d ∷ cs),
  scan_flags-NoError (record s { extra = s.extra ++ (b'-' ∷ rune_bytes c) ∷ [] }) (d ∷ cs),
)

scan_arg-NoError : (s : ProfileSpec) (arg : Bytes) → s.err ≡ [] → NoError (scan_arg s arg)
unfolding scan_arg
scan_arg-NoError s [] h = tt
scan_arg-NoError s (c ∷ []) h = tt
scan_arg-NoError s (c ∷ d ∷ cs) h = ground (arith, scan_flags-NoError s (d ∷ cs) h)

finish-Explains : (s : ProfileSpec) (cmd : List Bytes) → s.err ≡ [] → Explains (finish s cmd)
unfolding finish
finish-Explains s cmd h = ground arith

missing_value-Explains : (s : ProfileSpec) (c : ℕ) → Explains (missing_value s c)
missing_value-Explains s c = ((λ e p. cc), (λ h. refl))

-- One argument of the loop, by what its scan gives; `go` is the loop on what is left.
scan_args-Explains :
    (s : ProfileSpec) (args : List Bytes) → s.err ≡ [] → Explains (scan_args s args)
unfolding scan_args
scan_args-Explains s [] h = finish-Explains s [] h
scan_args-Explains s (arg ∷ []) h = split (scan_arg s arg) (scan_arg-NoError s arg h)
  where
    split :
        (o : Scan)
        → NoError o
        → Explains (elim o [
          | next t ↦ finish t []
          | wants t c ↦ missing_value t c
          | dashes ↦ finish s []
          | stop ↦ finish s (arg ∷ [])
        ])
    split (next t) n = finish-Explains t [] n
    split (wants t c) n = missing_value-Explains t c
    split dashes n = finish-Explains s [] h
    split stop n = finish-Explains s (arg ∷ []) h
scan_args-Explains s (arg ∷ val ∷ rest) h =
    split (scan_arg s arg) (scan_arg-NoError s arg h) (λ t. scan_args-Explains t (val ∷ rest))
      (λ t. scan_args-Explains t rest)
  where
    split :
        (o : Scan)
        → NoError o
        → ((t : ProfileSpec) → t.err ≡ [] → Explains (scan_args t (val ∷ rest)))
        → ((t : ProfileSpec) → t.err ≡ [] → Explains (scan_args t rest))
        → Explains (elim o [
          | next t ↦ scan_args t (val ∷ rest)
          | wants t c ↦ scan_args (apply t c val) rest
          | dashes ↦ finish s (val ∷ rest)
          | stop ↦ finish s (arg ∷ val ∷ rest)
        ])
    split (next t) n go go' = go t n
    split (wants t c) n go go' = go' (apply t c val) (err-apply t c val ∙ n)
    split dashes n go go' = finish-Explains s (val ∷ rest) h
    split stop n go go' = finish-Explains s (arg ∷ val ∷ rest) h

-- The parsed command line has no profile source exactly when it carries an error text.
pub parse_args-Explains :
    (argv : List Bytes) → ((parse_args argv).source ≡ unknown) ↔ ((parse_args argv).err ≢ [])
unfolding parse_args
parse_args-Explains [] = scan_args-Explains empty_spec [] refl
parse_args-Explains (program ∷ args) = scan_args-Explains empty_spec args refl
