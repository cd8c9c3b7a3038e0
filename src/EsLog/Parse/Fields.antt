-- ===== src/EsLog/Parse/Fields.antt =====
-- Which fields of an eslogger line `Parse` of internal/eslog/event.go asks for.
use buckle.Base.{
  Bool, true, false, Bytes, codes, List, [], ◌∷◌, ◌++◌, Option, none, some, ◌≡◌, subst, ap, sym,
  bytes_beq_iff, ◌⊎◌, inl, inr, refl, if◌then◌else◌, is_empty, bytes_beq, bytes_eq, ◌==◌, ◌||◌,
  Bool-cases,
}
use buckle.ServerDb.{has_name}
use buckle.EsLog.{Kind, exec, fork, exit, other, Event}
use buckle.EsLog.Parse.{
  Unmarshal, Parsed, unparseable, skip, drift, ok, ◌>>=◌, expect, time_in, token_in, path_in,
  path_or_drift, decode_proc, parse_exec, parse_fork, parse_exit, parse_body, parse, pick_kind,
}

abbrev pub OneOf : Bytes → List Bytes → Type 0
OneOf f [] = ⊥
OneOf f (x ∷ xs) = (f ≡ x) ⊎ OneOf f xs

abbrev proc_fields : Bytes → List Bytes
proc_fields field =
    field ∷ (field ++ codes ".audit_token") ∷ (field ++ codes ".executable.path") ∷ []

-- Every field that a DriftError can name.
abbrev pub known_fields : List Bytes
known_fields =
    codes "time"
    ∷ codes "event.exec"
    ∷ codes "event.exec.args"
    ∷ codes "event.fork"
    ∷ codes "event.exit.stat"
    ∷ (proc_fields (codes "process")
        ++ (proc_fields (codes "event.exec.target") ++ proc_fields (codes "event.fork.child")))

-- A step that drifts only at fields of `fs`.
abbrev Drifts {ℓ} : {A : Type ℓ} → List Bytes → Parsed A → Type ℓ
Drifts fs p = (f : Bytes) → p ≡ drift f → OneOf f fs

OneOf-left : (f : Bytes) (xs ys : List Bytes) → OneOf f xs → OneOf f (xs ++ ys)
OneOf-left f [] ys h = elim h [ ]
OneOf-left f (x ∷ xs) ys (inl e) = inl e
OneOf-left f (x ∷ xs) ys (inr h) = inr (OneOf-left f xs ys h)

OneOf-right : (f : Bytes) (xs ys : List Bytes) → OneOf f ys → OneOf f (xs ++ ys)
OneOf-right f [] ys h = h
OneOf-right f (x ∷ xs) ys h = inr (OneOf-right f xs ys h)

drift-inj {ℓ} : {A : Type ℓ} {f g : Bytes} → ◌≡◌ {A = Parsed A} (drift f) (drift g) → f ≡ g
drift-inj e = cc

Drifts-bind {ℓ κ} :
    {A : Type ℓ} {B : Type κ} (fs : List Bytes) (p : Parsed A) (k : A → Parsed B)
    → Drifts fs p
    → ((a : A) → Drifts fs (k a))
    → Drifts fs (p >>= k)
Drifts-bind fs unparseable k h g f e = cc
Drifts-bind fs skip k h g f e = cc
Drifts-bind fs (drift x) k h g f e = h f (ap (λ x. drift x) (drift-inj e))
Drifts-bind fs (ok a) k h g f e = g a f e

Drifts-expect {ℓ} :
    {A : Type ℓ} (fs : List Bytes) (field : Bytes) (o : Option A)
    → OneOf field fs
    → Drifts fs (expect o (drift field))
Drifts-expect fs field none h f e = subst (λ x. OneOf x fs) (drift-inj e) h
Drifts-expect fs field (some a) h f e = cc

Drifts-else {ℓ} :
    {A : Type ℓ} (fs : List Bytes) (o : Option A) (p : Parsed A)
    → Drifts fs p
    → Drifts fs (expect o p)
Drifts-else fs none p h = h
Drifts-else fs (some a) p h = λ f e. cc

Drifts-path :
    (fs : List Bytes) (field : Bytes) (need : Bool) (o : Option Bytes)
    → OneOf (field ++ codes ".executable.path") fs
    → Drifts fs (path_or_drift field need o)
Drifts-path fs field need (some p) h f e = cc
Drifts-path fs field true none h f e = subst (λ x. OneOf x fs) (drift-inj e) h
Drifts-path fs field false none h f e = cc

Drifts-if {ℓ} :
    {A : Type ℓ} (fs : List Bytes) (b : Bool) (p q : Parsed A)
    → Drifts fs p
    → Drifts fs q
    → Drifts fs (if b then p else q)
Drifts-if fs true p q h k = h
Drifts-if fs false p q h k = k

decode_proc-Drifts :
    (json : Unmarshal) (fs : List Bytes) (b field : Bytes) (need : Bool)
    → OneOf field fs
    → OneOf (field ++ codes ".audit_token") fs
    → OneOf (field ++ codes ".executable.path") fs
    → Drifts fs (decode_proc json b field need)
unfolding decode_proc
decode_proc-Drifts json fs b field need h i j =
    Drifts-if fs (is_empty b || b == codes "null") _ _
      (λ f e. subst (λ x. OneOf x fs) (drift-inj e) h)
      (Drifts-bind fs (expect (json.as_proc b) (drift field)) _ (Drifts-expect fs field _ h) λ r.
        Drifts-bind fs (expect (token_in r.audit_token) (drift (field ++ codes ".audit_token"))) _
          (Drifts-expect fs _ _ i)
          λ token.
            Drifts-bind fs (path_or_drift field need (path_in r.executable)) _
              (Drifts-path fs field need _ j) λ path f e. cc)

-- The field stands in the list.
OneOf-known : (f : Bytes) (fs : List Bytes) → has_name fs f ≡ true → OneOf f fs
unfolding has_name
OneOf-known f [] h = cc
OneOf-known f (x ∷ xs) h = elim (Bool-cases (x == f)) [
  | inl e ↦ inl (sym ((bytes_beq_iff x f).0 e))
  | inr e ↦ inr (OneOf-known f xs (rw e at h))
]

known : (f : Bytes) → has_name known_fields f ≡ true → OneOf f known_fields
known f h = OneOf-known f known_fields h

parse_body-Drifts :
    (json : Unmarshal) (k : Kind) (body : Bytes) (ev : Event)
    → Drifts known_fields (parse_body json k body ev)
unfolding parse_body parse_exec parse_fork parse_exit has_name bytes_beq
parse_body-Drifts json exec body ev =
    Drifts-bind known_fields (expect (json.as_exec body) (drift (codes "event.exec"))) _
      (Drifts-expect known_fields _ _ (known _ refl))
      λ x.
        Drifts-bind known_fields (decode_proc json x.target (codes "event.exec.target") true) _
          (decode_proc-Drifts json known_fields x.target (codes "event.exec.target") true
            (known _ refl) (known _ refl) (known _ refl))
          λ target.
            Drifts-bind known_fields (expect x.args (drift (codes "event.exec.args"))) _
              (Drifts-expect known_fields _ _ (known _ refl)) λ args f e. cc
parse_body-Drifts json fork body ev =
    Drifts-bind known_fields (expect (json.as_fork body) (drift (codes "event.fork"))) _
      (Drifts-expect known_fields _ _ (known _ refl))
      λ child.
        Drifts-bind known_fields (decode_proc json child (codes "event.fork.child") false) _
          (decode_proc-Drifts json known_fields child (codes "event.fork.child") false
            (known _ refl) (known _ refl) (known _ refl))
          λ target f e. cc
parse_body-Drifts json exit body ev =
    Drifts-bind known_fields (expect (json.as_exit body) (drift (codes "event.exit.stat"))) _
      (Drifts-expect known_fields _ _ (known _ refl)) λ status f e. cc
parse_body-Drifts json other body ev = λ f e. cc

-- A DriftError of Parse names one of a fixed list of fields.
pub parse-known_fields :
    (json : Unmarshal) (line field : Bytes)
    → parse json line ≡ drift field
    → OneOf field known_fields
unfolding parse has_name bytes_beq
parse-known_fields json line =
    Drifts-bind known_fields (expect (json.as_msg line) unparseable) _
      (Drifts-else known_fields _ unparseable λ f e. cc)
      λ m.
        Drifts-bind known_fields (expect (pick_kind m.event (exec ∷ fork ∷ exit ∷ [])) skip) _
          (Drifts-else known_fields _ skip λ f e. cc)
          λ picked.
            Drifts-bind known_fields (expect (time_in json.as_time m.time) (drift (codes "time"))) _
              (Drifts-expect known_fields _ _ (inl refl))
              λ time.
                Drifts-bind known_fields (decode_proc json m.process (codes "process") true) _
                  (decode_proc-Drifts json known_fields m.process (codes "process") true
                    (known _ refl) (known _ refl) (known _ refl))
                  λ process. parse_body-Drifts json picked.0 picked.1 _

-- What a detector's optional input leaves of a result.
abbrev pub without_env : Parsed Event → Parsed Event
without_env (ok ev) = ok (record ev { env = [] })
without_env unparseable = unparseable
without_env skip = skip
without_env (drift f) = drift f

same_bind {ℓ} :
    {A : Type ℓ} (p : Parsed A) (k l : A → Parsed Event)
    → ((a : A) → without_env (k a) ≡ without_env (l a))
    → without_env (p >>= k) ≡ without_env (p >>= l)
same_bind unparseable k l h = refl
same_bind skip k l h = refl
same_bind (drift f) k l h = refl
same_bind (ok a) k l h = h a

abbrev pub reading : Unmarshal → (Bytes → Option (List Bytes)) → Unmarshal
reading json strings = record json { as_strings = strings }

same_body :
    (json : Unmarshal) (strings : Bytes → Option (List Bytes)) (k : Kind) (body : Bytes)
    (ev : Event)
    → without_env (parse_body json k body ev)
      ≡ without_env (parse_body (reading json strings) k body ev)
unfolding parse_body parse_exec parse_fork parse_exit decode_proc
same_body json strings exec body ev =
    same_bind (expect (json.as_exec body) (drift (codes "event.exec"))) _ _ λ x.
      same_bind (decode_proc json x.target (codes "event.exec.target") true) _ _
        λ target. same_bind (expect x.args (drift (codes "event.exec.args"))) _ _ λ args. refl
same_body json strings fork body ev = refl
same_body json strings exit body ev = refl
same_body json strings other body ev = refl

-- However the env of a line reads, or fails to, the result of Parse is the same but for the env.
pub parse-env_ignored :
    (json : Unmarshal) (strings : Bytes → Option (List Bytes)) (line : Bytes)
    → without_env (parse json line) ≡ without_env (parse (reading json strings) line)
unfolding parse decode_proc
parse-env_ignored json strings line = same_bind (expect (json.as_msg line) unparseable) _ _ λ m.
    same_bind (expect (pick_kind m.event (exec ∷ fork ∷ exit ∷ [])) skip) _ _ λ picked.
      same_bind (expect (time_in json.as_time m.time) (drift (codes "time"))) _ _ λ time.
        same_bind (decode_proc json m.process (codes "process") true) _ _
          λ process. same_body json strings picked.0 picked.1 _
