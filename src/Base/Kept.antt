-- ===== src/Base/Kept.antt =====
-- Lists whose elements change in place and that grow at the end.
use Prim.Native.Nat.{ℕ, zero, suc}
use buckle.Base.Tests.{or_else}
use mathlib.Core.List.{List, [], ◌∷◌, ◌++◌}
use buckle.Base.Lists.{get_elem?, set}

-- `m` holds, at each position of `l`, an element that `R` relates to that of `l`.
abbrev pub Kept {ℓ} : {A : Type ℓ} → (A → A → Type 0) → List A → List A → Type 0
Kept R [] m = Unit
Kept R (x ∷ l) [] = ⊥
Kept R (x ∷ l) (y ∷ m) = R x y × Kept R l m

module _ {ℓ} {A : Type ℓ} (R : A → A → Type 0) where
  pub Kept-refl : ((x : A) → R x x) → (l : List A) → Kept R l l
  Kept-refl h [] = tt
  Kept-refl h (x ∷ l) = (h x, Kept-refl h l)

  pub Kept-trans :
      ((x y z : A) → R x y → R y z → R x z)
      → (l m n : List A) → Kept R l m
      → Kept R m n
      → Kept R l n
  Kept-trans h [] m n p q = tt
  Kept-trans h (x ∷ l) [] n p q = elim p [ ]
  Kept-trans h (x ∷ l) (y ∷ m) [] p q = elim q [ ]
  Kept-trans h (x ∷ l) (y ∷ m) (z ∷ n) p q = (h x y z p.0 q.0, Kept-trans h l m n p.1 q.1)

  pub Kept-append : ((x : A) → R x x) → (l m : List A) → Kept R l (l ++ m)
  Kept-append h [] m = tt
  Kept-append h (x ∷ l) m = (h x, Kept-append h l m)

  pub Kept-set :
      ((x : A) → R x x)
      → (l : List A) (i : ℕ) (v d : A) → R (or_else (get_elem? l i) d) v
      → Kept R l (set l i v)
  Kept-set h [] i v d r = tt
  Kept-set h (x ∷ l) zero v d r = (r, Kept-refl h l)
  Kept-set h (x ∷ l) (suc i) v d r = (h x, Kept-set h l i v d r)
