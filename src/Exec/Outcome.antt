-- ===== src/Exec/Outcome.antt =====
-- What holds of an action that returns: a relation of the state before, the result and the state
-- after, which a `do` block passes from step to step. Nothing is said where the action fails.
use buckle.Base.{◌≡◌, refl, ap, subst, Bool, true, false, List, [], ◌∷◌, if◌then◌else◌}
use buckle.Exec.{Result, ok, err, Exec, pure, gets, after, ◌>>=◌, for_each}
use buckle.Exec.Frame.{IsPreorder, Relates}

pub record Ends {ℓ κ μ} {S : Type ℓ} {A : Type κ} (P : S → A → S → Type μ) (m : Exec S A)
    : Type (ℓ ⊔ κ ⊔ μ) where
  pub at : (s t : S) (a : A) → m s ≡ (ok a, t) → P s a t

abbrev result {ℓ κ} : {S : Type ℓ} {A : Type κ} → A → Result A × S → A
result d (ok a, s) = a
result d (err e, s) = d

module _ {ℓ κ μ} {S : Type ℓ} {A : Type κ} where
  pub Ends-pure : (P : S → A → S → Type μ) (a : A) → ((s : S) → P s a s) → Ends P (pure a)
  unfolding pure
  Ends-pure P a h = record { at = λ s t b e. subst (λ x. P s (result a x) x.1) e (h s) }

  pub Ends-Relates : {R : S → S → Type μ} {m : Exec S A} → Relates R m → Ends (λ s a t. R s t) m
  Ends-Relates {R} {m} h = record { at = λ s t a e. subst (R s) (ap (λ x. x.1) e) (h.at s) }

module _ {ℓ κ μ ν ξ ο} {S : Type ℓ} {A : Type κ} {B : Type ξ} (P : S → A → S → Type μ)
    (Q : A → S → B → S → Type ν) (R : S → B → S → Type ο) where
  after-Ends :
      (m : Exec S A) (f : A → Exec S B) (s u : S) (b : B)
      → Ends P m
      → ((a : A) → Ends (Q a) (f a))
      → ((t : S) (a : A) → P s a t → Q a t b u → R s b u)
      → (r : Result A) (t : S) → m s ≡ (r, t)
      → after r f t ≡ (ok b, u)
      → R s b u
  after-Ends m f s u b hm hf c (ok a) t e e' = c t a (hm.at s t a e) ((hf a).at t u b e')
  after-Ends m f s u b hm hf c (err x) t e e' = cc

  pub Ends-bind :
      (m : Exec S A) (f : A → Exec S B)
      → Ends P m
      → ((a : A) → Ends (Q a) (f a))
      → ((s t u : S) (a : A) (b : B) → P s a t → Q a t b u → R s b u)
      → Ends R (m >>= f)
  unfolding ◌>>=◌
  Ends-bind m f hm hf c = record {
    at = λ s u b e. after-Ends m f s u b hm hf (λ t a. c s t u a b) (m s).0 (m s).1 refl e;
  }

module _ {ℓ κ μ ξ} {S : Type ℓ} {A : Type κ} {B : Type ξ} (R : S → B → S → Type μ) where
  -- What is read changes nothing.
  pub Ends-read : (f : S → A) (k : A → Exec S B) → ((a : A) → Ends R (k a)) → Ends R (gets f >>= k)
  unfolding ◌>>=◌
  Ends-read f k h = record { at = λ s t b e. (h (f s)).at s t b e }

pub Ends-if {ℓ κ μ} :
    {S : Type ℓ} {A : Type κ} (R : S → A → S → Type μ) (b : Bool) (m n : Exec S A)
    → Ends R m
    → Ends R n
    → Ends R (if b then m else n)
Ends-if R true m n hm hn = hm
Ends-if R false m n hm hn = hn

pub Ends-for_each {ℓ κ μ} :
    {S : Type ℓ} {A : Type κ} (R : S → S → Type μ)
    → IsPreorder R
    → (xs : List A) (body : A → Exec S (Unit {0})) → ((a : A) → Ends (λ s u t. R s t) (body a))
    → Ends (λ s u t. R s t) (for_each xs body)
unfolding for_each
Ends-for_each R o [] body h = Ends-pure (λ s u t. R s t) tt o.rel_refl
Ends-for_each R o (x ∷ xs) body h =
    Ends-bind (λ s u t. R s t) (λ u s v t. R s t) (λ s u t. R s t) (body x) (λ u. for_each xs body)
      (h x) (λ u. Ends-for_each R o xs body h) (λ s t v a u f g. o.rel_trans s t v f g)
