-- ===== src/Sbx/Args/Grammar.antt =====
-- The command lines that getopt reads, as words, and what `parse_args` makes of them.
use buckle.Base.{
  ℕ, true, false, List, [], ◌∷◌, ◌++◌, ◌≡◌, ◌≢◌, refl, ap, ◌∙◌, arith, Bytes, codes, nat_eq,
  bytes_eq, bytes_beq, All, append_assoc,
}
use buckle.Sbx.Args.{
  ProfileSpec, unknown, next, wants, stop, takes_value, rune_bytes, apply, scan_flags, scan_arg,
  finish, missing_value, scan_args, empty_spec, parse_args,
}

-- One option word: a cluster of flags, or a cluster that ends in an option with its value.
pub data Word : Type 0 where
  -- `-abc`
  flags : Bytes → Word
  -- `-abpVALUE`
  attached : Bytes → ℕ → Bytes → Word
  -- `-abp VALUE`
  detached : Bytes → ℕ → Bytes → Word

abbrev pub IsFlags : Bytes → Type 0
IsFlags = All (λ c. takes_value c ≡ false)

abbrev pub IsWord : Word → Type 0
IsWord (flags fs) = IsFlags fs × (fs ≢ []) × (fs ≢ b'-' ∷ [])
IsWord (attached fs c v) = IsFlags fs × (takes_value c ≡ true) × (v ≢ [])
IsWord (detached fs c v) = IsFlags fs × (takes_value c ≡ true)

abbrev pub spell : Word → List Bytes
spell (flags fs) = (b'-' ∷ fs) ∷ []
spell (attached fs c v) = (b'-' ∷ (fs ++ c ∷ v)) ∷ []
spell (detached fs c v) = (b'-' ∷ (fs ++ c ∷ [])) ∷ v ∷ []

abbrev pub spell_all : List Word → List Bytes
spell_all [] = []
spell_all (w ∷ ws) = spell w ++ spell_all ws

-- A flag is noted as it stands.
abbrev pub note_flags : ProfileSpec → Bytes → ProfileSpec
note_flags s [] = s
note_flags s (c ∷ cs) = note_flags (record s { extra = s.extra ++ (b'-' ∷ rune_bytes c) ∷ [] }) cs

abbrev pub note : ProfileSpec → Word → ProfileSpec
note s (flags fs) = note_flags s fs
note s (attached fs c v) = apply (note_flags s fs) c v
note s (detached fs c v) = apply (note_flags s fs) c v

abbrev pub note_all : ProfileSpec → List Word → ProfileSpec
note_all s [] = s
note_all s (w ∷ ws) = note_all (note s w) ws

-- The ways in which the options end, with the command that follows.
pub data Ending : List Bytes → List Bytes → Type 0 where
  at_end : Ending [] []
  at_dashes : (cmd : List Bytes) → Ending (codes "--" ∷ cmd) cmd
  at_empty : (cmd : List Bytes) → Ending ([] ∷ cmd) ([] ∷ cmd)
  at_one : (c : ℕ) (cmd : List Bytes) → Ending ((c ∷ []) ∷ cmd) ((c ∷ []) ∷ cmd)
  at_word :
      (c d : ℕ) (w : Bytes) (cmd : List Bytes)
      → c ≢ b'-'
      → Ending ((c ∷ d ∷ w) ∷ cmd) ((c ∷ d ∷ w) ∷ cmd)

scan_flags_only :
    (fs : Bytes) (s : ProfileSpec) → IsFlags fs → scan_flags s fs ≡ next (note_flags s fs)
unfolding scan_flags
scan_flags_only [] s h = refl
scan_flags_only (c ∷ []) s h = rw (h.0)
scan_flags_only (c ∷ d ∷ cs) s h = rw (h.0) (scan_flags_only (d ∷ cs) _ h.1)

scan_flags_attached :
    (fs : Bytes) (s : ProfileSpec) (c d : ℕ) (v : Bytes)
    → IsFlags fs
    → takes_value c ≡ true
    → scan_flags s (fs ++ c ∷ d ∷ v) ≡ next (apply (note_flags s fs) c (d ∷ v))
unfolding scan_flags
scan_flags_attached [] s c d v h t = rw t
scan_flags_attached (f ∷ []) s c d v h t = rw (h.0, t)
scan_flags_attached (f ∷ g ∷ fs) s c d v h t = rw (h.0) (scan_flags_attached (g ∷ fs) _ c d v h.1 t)

scan_flags_detached :
    (fs : Bytes) (s : ProfileSpec) (c : ℕ)
    → IsFlags fs
    → takes_value c ≡ true
    → scan_flags s (fs ++ c ∷ []) ≡ wants (note_flags s fs) c
unfolding scan_flags
scan_flags_detached [] s c h t = rw t
scan_flags_detached (f ∷ []) s c h t = rw (h.0, t)
scan_flags_detached (f ∷ g ∷ fs) s c h t = rw (h.0) (scan_flags_detached (g ∷ fs) _ c h.1 t)

-- An argument that begins with "-", has more, and is not "--", goes to the flags.
scan_arg_dash :
    (s : ProfileSpec) (cs : Bytes)
    → cs ≢ []
    → cs ≢ b'-' ∷ []
    → scan_arg s (b'-' ∷ cs) ≡ scan_flags s cs
unfolding scan_arg
scan_arg_dash s [] h k = absurd (h refl)
scan_arg_dash s (c ∷ cs) h k = ground (arith, bytes_eq.beq_iff (b'-' ∷ c ∷ cs) (codes "--"))

not-dash-word :
    (fs : Bytes) (c : ℕ) (v : Bytes) → IsFlags fs → takes_value c ≡ true → fs ++ c ∷ v ≢ b'-' ∷ []
not-dash-word [] c v h t = λ e. ground arith
not-dash-word (f ∷ []) c v h t = λ e. cc
not-dash-word (f ∷ g ∷ fs) c v h t = λ e. cc

append-ne-nil : (fs : Bytes) (c : ℕ) (v : Bytes) → fs ++ c ∷ v ≢ []
append-ne-nil [] c v = λ e. cc
append-ne-nil (f ∷ fs) c v = λ e. cc

-- What one argument does to the loop, by its scan.
scan_args_next :
    (s t : ProfileSpec) (arg : Bytes) (rest : List Bytes)
    → scan_arg s arg ≡ next t
    → scan_args s (arg ∷ rest) ≡ scan_args t rest
unfolding scan_args
scan_args_next s t arg [] e = rw (e, scan_args)
scan_args_next s t arg (v ∷ rest) e = rw (e, scan_args)

scan_args_wants :
    (s t : ProfileSpec) (c : ℕ) (arg v : Bytes) (rest : List Bytes)
    → scan_arg s arg ≡ wants t c
    → scan_args s (arg ∷ v ∷ rest) ≡ scan_args (apply t c v) rest
unfolding scan_args
scan_args_wants s t c arg v rest e = rw (e, scan_args)

scan_args-spell :
    (w : Word) (s : ProfileSpec) (rest : List Bytes)
    → IsWord w
    → scan_args s (spell w ++ rest) ≡ scan_args (note s w) rest
scan_args-spell (flags fs) s rest h =
    scan_args_next s _ _ rest (scan_arg_dash s fs h.1 h.2 ∙ scan_flags_only fs s h.0)
scan_args-spell (attached fs c []) s rest h = absurd (h.2 refl)
scan_args-spell (attached fs c (d ∷ v)) s rest h = scan_args_next s _ _ rest (
    scan_arg_dash s _ (append-ne-nil fs c (d ∷ v)) (not-dash-word fs c (d ∷ v) h.0 h.1)
    ∙ scan_flags_attached fs s c d v h.0 h.1)
scan_args-spell (detached fs c v) s rest h = scan_args_wants s _ c _ v rest (
    scan_arg_dash s _ (append-ne-nil fs c []) (not-dash-word fs c [] h.0 h.1)
    ∙ scan_flags_detached fs s c h.0 h.1)

scan_args-spell_all :
    (ws : List Word) (s : ProfileSpec) (rest : List Bytes)
    → All IsWord ws
    → scan_args s (spell_all ws ++ rest) ≡ scan_args (note_all s ws) rest
scan_args-spell_all [] s rest h = refl
scan_args-spell_all (w ∷ ws) s rest h =
    rw append_assoc
      (scan_args-spell w s (spell_all ws ++ rest) h.0 ∙ scan_args-spell_all ws (note s w) rest h.1)

scan_arg_word : (s : ProfileSpec) (c d : ℕ) (w : Bytes) → c ≢ b'-' → scan_arg s (c ∷ d ∷ w) ≡ stop
unfolding scan_arg
scan_arg_word s c d w h = ground (arith, bytes_eq.beq_iff (c ∷ d ∷ w) (codes "--"))

scan_args-Ending :
    {args cmd : List Bytes} (s : ProfileSpec) → Ending args cmd → scan_args s args ≡ finish s cmd
unfolding scan_args scan_arg bytes_beq
scan_args-Ending s at_end = refl
scan_args-Ending s (at_dashes []) = refl
scan_args-Ending s (at_dashes (v ∷ cmd)) = refl
scan_args-Ending s (at_empty []) = refl
scan_args-Ending s (at_empty (v ∷ cmd)) = refl
scan_args-Ending s (at_one c []) = refl
scan_args-Ending s (at_one c (v ∷ cmd)) = refl
scan_args-Ending s (at_word c d w [] h) = rw (scan_arg_word s c d w h, scan_args)
scan_args-Ending s (at_word c d w (v ∷ cmd) h) = rw (scan_arg_word s c d w h, scan_args)

-- A command line of well-formed option words, closed by the end of the list, by "--" or by the
-- first word that is no option, gives the options in order, each with its value, and the words
-- behind as the command, however its options are clustered and their values attached.
pub parse_args-spell_all :
    (program : Bytes) (ws : List Word) {ending cmd : List Bytes}
    → All IsWord ws
    → Ending ending cmd
    → parse_args (program ∷ (spell_all ws ++ ending)) ≡ finish (note_all empty_spec ws) cmd
unfolding parse_args
parse_args-spell_all program ws {ending} h e =
    scan_args-spell_all ws empty_spec ending h ∙ scan_args-Ending (note_all empty_spec ws) e

note_flags-command : (fs : Bytes) (s : ProfileSpec) → (note_flags s fs).command ≡ s.command
note_flags-command [] s = refl
note_flags-command (c ∷ cs) s = note_flags-command cs _

apply-command : (s : ProfileSpec) (c : ℕ) (v : Bytes) → (apply s c v).command ≡ s.command
unfolding apply
apply-command s c v = ground arith

note_all-command : (ws : List Word) (s : ProfileSpec) → (note_all s ws).command ≡ s.command
note_all-command [] s = refl
note_all-command (flags fs ∷ ws) s = note_all-command ws _ ∙ note_flags-command fs s
note_all-command (attached fs c v ∷ ws) s =
    note_all-command ws _ ∙ (apply-command (note_flags s fs) c v ∙ note_flags-command fs s)
note_all-command (detached fs c v ∷ ws) s =
    note_all-command ws _ ∙ (apply-command (note_flags s fs) c v ∙ note_flags-command fs s)

takes_value-rune : (c : ℕ) → takes_value c ≡ true → rune_bytes c ≡ c ∷ []
unfolding rune_bytes
takes_value-rune c t = ground arith

scan_args-wanted :
    (program : Bytes) (ws : List Word) (fs : Bytes) (c : ℕ)
    → All IsWord ws
    → IsFlags fs
    → takes_value c ≡ true
    → parse_args (program ∷ (spell_all ws ++ (b'-' ∷ (fs ++ c ∷ [])) ∷ []))
      ≡ missing_value (note_flags (note_all empty_spec ws) fs) c
unfolding parse_args scan_args
scan_args-wanted program ws fs c h k t =
    scan_args-spell_all ws empty_spec _ h ∙ rw (wanted, scan_args)
  where
    wanted :
        scan_arg (note_all empty_spec ws) (b'-' ∷ (fs ++ c ∷ []))
        ≡ wants (note_flags (note_all empty_spec ws) fs) c
    wanted =
        scan_arg_dash _ _ (append-ne-nil fs c []) (not-dash-word fs c [] k t)
        ∙ scan_flags_detached fs _ c k t

-- A command line that ends in an option without its value is refused: the profile source is
-- unknown, the error is "option -c requires a value" for the option c, and the command is empty.
pub parse_args-missing_value :
    (program : Bytes) (ws : List Word) (fs : Bytes) (c : ℕ)
    → All IsWord ws
    → IsFlags fs
    → takes_value c ≡ true
    → let spec = parse_args (program ∷ (spell_all ws ++ (b'-' ∷ (fs ++ c ∷ [])) ∷ [])) in
      (spec.source ≡ unknown)
      × (spec.err ≡ codes "option -" ++ (c ∷ codes " requires a value"))
      × (spec.command ≡ [])
parse_args-missing_value program ws fs c h k t =
    let e = scan_args-wanted program ws fs c h k t in
    (
      ap (λ (s : ProfileSpec). s.source) e,
      ap (λ (s : ProfileSpec). s.err) e
          ∙ ap (λ b. codes "option -" ++ (b ++ codes " requires a value")) (takes_value-rune c t),
      ap (λ (s : ProfileSpec). s.command) e
          ∙ (note_flags-command fs (note_all empty_spec ws) ∙ note_all-command ws empty_spec),
    )
