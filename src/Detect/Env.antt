-- ===== src/Detect/Env.antt =====
-- `EnvNames` and `PickEnv`: what of a process's environment is kept.
use buckle.Base.{
  Bool, true, false, not, ◌||◌, List, [], ◌∷◌, ◌++◌, Option, none, some, Bytes, codes, ◌==◌,
  bytes_eq, nat_eq, if◌then◌else◌, is_some, cut, ltb, ◌≡◌, refl, arith, bytes_beq,
}
use buckle.Base.Map
use buckle.Base.Map.{Map}
use buckle.Detect.{Detector, env_vars, all_detectors}

-- byte order of strings: `a <= b`
unfoldable pub bytes_le : Bytes → Bytes → Bool
bytes_le [] b = true
bytes_le (x ∷ a) [] = false
bytes_le (x ∷ a) (y ∷ b) = if ltb x y then true else if x == y then bytes_le a b else false

-- `slices.Sort` and `slices.Compact` on strings
unfoldable pub insert_sorted : Bytes → List Bytes → List Bytes
unfolding bytes_le
insert_sorted a [] = a ∷ []
insert_sorted a (b ∷ bs) =
    let rest = insert_sorted a bs in if bytes_le a b then a ∷ b ∷ bs else b ∷ rest

unfoldable pub sort_names : List Bytes → List Bytes
unfolding insert_sorted
sort_names [] = []
sort_names (a ∷ as') = insert_sorted a (sort_names as')

unfoldable pub compact : List Bytes → List Bytes
compact [] = []
compact (a ∷ []) = a ∷ []
compact (a ∷ b ∷ bs) = let rest = compact (b ∷ bs) in if a == b then rest else a ∷ rest

abbrev pub append_vars : List Detector → List Bytes
append_vars [] = []
append_vars (d ∷ ds) = env_vars d ++ append_vars ds

-- `EnvNames`
unfoldable pub env_names : List Bytes
unfolding sort_names compact
env_names = compact (sort_names (append_vars all_detectors))

-- `slices.Contains`
unfoldable pub contains_name : List Bytes → Bytes → Bool
contains_name [] k = false
contains_name (n ∷ ns) k = n == k || contains_name ns k

-- One entry of the loop of `PickEnv`; `names` is the declared set.
unfoldable pub pick_entry : List Bytes → Option (Bytes × Bytes) → Map Bytes Bytes → Map Bytes Bytes
pick_entry names none out = out
pick_entry names (some (k, v)) out =
    if not (contains_name names k)
    then out
    else if is_some (Map.lookup k out)
    then out
    else Map.insert k v out

unfoldable pub pick_loop : List Bytes → List Bytes → Map Bytes Bytes → Map Bytes Bytes
unfolding pick_entry
pick_loop names [] out = out
pick_loop names (kv ∷ env) out = pick_loop names env (pick_entry names (cut b'=' kv) out)

-- `PickEnv`; a nil map and an empty one read alike.
unfoldable pub pick_env : List Bytes → Map Bytes Bytes
unfolding pick_loop env_names
pick_env env = pick_loop env_names env []

-- What `getenv(k)` of the environment gives: the value of the first entry `k=value`.
unfoldable pub getenv : Bytes → List Bytes → Option Bytes
getenv k [] = none
getenv k (kv ∷ env) =
    let rest = getenv k env in
    elim (cut b'=' kv) [ none ↦ rest | some (j, v) ↦ if j == k then some v else rest ]

abbrev or_else : Option Bytes → Option Bytes → Option Bytes
or_else (some a) b = some a
or_else none b = b

lookup-pick_entry :
    (names : List Bytes) (p : Option (Bytes × Bytes)) (out : Map Bytes Bytes) (k : Bytes)
    → Map.lookup k (pick_entry names p out)
      ≡ or_else (Map.lookup k out) (
          if contains_name names k
          then (elim p [ none ↦ none | some (j, v) ↦ if j == k then some v else none ])
          else none)
unfolding pick_entry
lookup-pick_entry names none out k = ground arith
lookup-pick_entry names (some (j, v)) out k =
    ground (arith, Map.lookup-insert j k v out, bytes_eq.beq_iff j k)

lookup-pick_loop :
    (names env : List Bytes) (out : Map Bytes Bytes) (k : Bytes)
    → Map.lookup k (pick_loop names env out)
      ≡ or_else (Map.lookup k out) (if contains_name names k then getenv k env else none)
unfolding pick_loop getenv
lookup-pick_loop names [] out k = ground arith
lookup-pick_loop names (kv ∷ env) out k = ground (
  arith,
  lookup-pick_loop names env (pick_entry names (cut b'=' kv) out) k,
  lookup-pick_entry names (cut b'=' kv) out k,
)

pick_from_empty :
    (names env : List Bytes) (k : Bytes)
    → Map.lookup k (pick_loop names env []) ≡ (if contains_name names k then getenv k env else none)
pick_from_empty names env k =
    ground (arith, lookup-pick_loop names env [] k, Map.lookup-nil Bytes k)

-- `pick_env` keeps, of every declared name, the value that `getenv` gives, and of every other name
-- nothing.
pub lookup-pick_env :
    (env : List Bytes) (k : Bytes)
    → Map.lookup k (pick_env env) ≡ (if contains_name env_names k then getenv k env else none)
unfolding pick_env
lookup-pick_env env k = pick_from_empty env_names env k

names_are :
    env_names
    ≡ codes "CURSOR_AGENT"
      ∷ codes "CURSOR_CONVERSATION_ID"
      ∷ codes "CURSOR_REQUEST_ID"
      ∷ codes "CURSOR_SANDBOX"
      ∷ []
unfolding env_names bytes_beq
names_are = refl
