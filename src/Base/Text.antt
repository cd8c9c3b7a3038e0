-- ===== src/Base/Text.antt =====
-- The functions of Go's `strings` that the program calls, over bytes.
use mathlib.Core.Path.{◌≡◌, refl}
use mathlib.Core.List.{[], ◌∷◌, ◌++◌}
use mathlib.Core.Bool.{Bool, true, false, not, ◌||◌, ◌&&◌}
use mathlib.Core.Option.{Option, none, some}
use Prim.Native.Nat.{ℕ, ◌-◌}
use native.Mathlib.Omega.{arith}
use buckle.Base.Equality.{Bytes, nat_eq, bytes_eq, ◌==◌}
use buckle.Base.Tests.{if◌then◌else◌, ltb}
use buckle.Base.Lists.{All, length, take, drop}

-- `strings.CutPrefix`: what follows the prefix.
unfoldable pub strip_prefix : Bytes → Bytes → Option Bytes
strip_prefix [] t = some t
strip_prefix (p ∷ ps) [] = none
strip_prefix (p ∷ ps) (c ∷ cs) = let rest = strip_prefix ps cs in if p == c then rest else none

abbrev pub is_some {ℓ} : {A : Type ℓ} → Option A → Bool
is_some none = false
is_some (some a) = true

-- `strings.HasPrefix(t, p)`
abbrev pub has_prefix : Bytes → Bytes → Bool
has_prefix t p = is_some (strip_prefix p t)

-- `strings.Contains(t, p)`
unfoldable pub contains : Bytes → Bytes → Bool
unfolding strip_prefix
contains [] p = has_prefix [] p
contains (c ∷ cs) p = has_prefix (c ∷ cs) p || contains cs p

abbrev cons_key : ℕ → Option (Bytes × Bytes) → Option (Bytes × Bytes)
cons_key c none = none
cons_key c (some (k, v)) = some (c ∷ k, v)

-- `strings.Cut(t, sep)` at a one-byte separator; `none` where it is missing.
unfoldable pub cut : ℕ → Bytes → Option (Bytes × Bytes)
cut sep [] = none
cut sep (c ∷ cs) = let rest = cons_key c (cut sep cs) in if c == sep then some ([], cs) else rest

-- `strings.HasSuffix(a, s)`
unfoldable pub has_suffix : Bytes → Bytes → Bool
has_suffix a s = not (ltb (length a) (length s)) && drop (length a - length s) a == s

-- `strings.TrimSuffix(a, s)`
unfoldable pub trim_suffix : Bytes → Bytes → Bytes
unfolding has_suffix
trim_suffix a s = if has_suffix a s then take (length a - length s) a else a

-- The longest prefix of bytes that pass a test, and the rest.
unfoldable pub span : (ℕ → Bool) → Bytes → Bytes × Bytes
span p [] = ([], [])
span p (c ∷ cs) = let (a, b) = span p cs in if p c then (c ∷ a, b) else ([], c ∷ cs)

pub strip_prefix_sound : (p t : Bytes) {rest : Bytes} → strip_prefix p t ≡ some rest → t ≡ p ++ rest
unfolding strip_prefix
strip_prefix_sound [] t h = cc
strip_prefix_sound (p ∷ ps) [] h = cc
strip_prefix_sound (p ∷ ps) (c ∷ cs) {rest} h =
    ground (arith, strip_prefix_sound ps cs {rest = rest})

pub strip_prefix-append : (p t : Bytes) → strip_prefix p (p ++ t) ≡ some t
unfolding strip_prefix
strip_prefix-append [] t = refl
strip_prefix-append (p ∷ ps) t = ground (arith, strip_prefix-append ps t)

pub span_sound :
    (p : ℕ → Bool) (t : Bytes)
    → (t ≡ (span p t).0 ++ (span p t).1) × All (λ c. p c ≡ true) (span p t).0
unfolding span
span_sound p [] = (refl, tt)
span_sound p (c ∷ cs) = ground (arith, span_sound p cs)

-- A run of passing bytes before a failing one is the span.
pub span-append :
    (p : ℕ → Bool) (a : Bytes) (c : ℕ) (t : Bytes)
    → All (λ b. p b ≡ true) a
    → p c ≡ false
    → span p (a ++ c ∷ t) ≡ (a, c ∷ t)
unfolding span
span-append p [] c t h f = ground arith
span-append p (b ∷ a) c t h f = ground (arith, span-append p a c t h.1 f)
