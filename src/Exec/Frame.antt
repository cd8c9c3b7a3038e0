-- ===== src/Exec/Frame.antt =====
-- What an action relates: a reflexive and transitive relation between the state before and the
-- state after holds of a `do` block when it holds of each step, whether the step fails or not.
use buckle.Base.{Bool, true, false, Bytes, List, [], ◌∷◌, if◌then◌else◌}
use buckle.Exec.{Result, ok, err, Exec, pure, raise, lift, gets, after, ◌>>=◌, for_each}

pub record IsPreorder {ℓ κ} {S : Type ℓ} (R : S → S → Type κ) : Type (ℓ ⊔ κ) where
  pub rel_refl : (s : S) → R s s
  pub rel_trans : (s t u : S) → R s t → R t u → R s u

pub record Relates {ℓ κ μ} {S : Type ℓ} {A : Type κ} (R : S → S → Type μ) (m : Exec S A)
    : Type (ℓ ⊔ μ) where
  pub at : (s : S) → R s (m s).1

module _ {ℓ κ μ} {S : Type ℓ} {A : Type κ} {R : S → S → Type μ} (o : IsPreorder R) where
  pub Relates-pure : (a : A) → Relates R (pure a)
  unfolding pure
  Relates-pure a = record { at = o.rel_refl }

  pub Relates-raise : (e : Bytes) → Relates R (raise {A = A} e)
  unfolding raise
  Relates-raise e = record { at = o.rel_refl }

  pub Relates-lift : (r : Result A) → Relates R (lift r)
  unfolding lift
  Relates-lift r = record { at = o.rel_refl }

  pub Relates-gets : (f : S → A) → Relates R (gets f)
  unfolding gets
  Relates-gets f = record { at = o.rel_refl }

module _ {ℓ κ μ ν} {S : Type ℓ} {A : Type κ} {B : Type ν} {R : S → S → Type μ}
    (o : IsPreorder R) where
  after-Relates :
      (r : Result A) (f : A → Exec S B) → ((a : A) → Relates R (f a)) → Relates R (after r f)
  after-Relates (ok a) f h = h a
  after-Relates (err e) f h = record { at = o.rel_refl }

  pub Relates-bind :
      (m : Exec S A) (f : A → Exec S B)
      → Relates R m
      → ((a : A) → Relates R (f a))
      → Relates R (m >>= f)
  unfolding ◌>>=◌
  Relates-bind m f hm hf = record {
    at = λ s. let (r, s') = m s in o.rel_trans s s' _ (hm.at s) ((after-Relates r f hf).at s');
  }

module _ {ℓ κ μ} {S : Type ℓ} {A : Type κ} {R : S → S → Type μ} (o : IsPreorder R) where
  pub Relates-if :
      (b : Bool) (m n : Exec S A) → Relates R m → Relates R n → Relates R (if b then m else n)
  Relates-if true m n hm hn = hm
  Relates-if false m n hm hn = hn

  pub Relates-for_each :
      (xs : List A) (body : A → Exec S (Unit {0}))
      → ((a : A) → Relates R (body a))
      → Relates R (for_each xs body)
  unfolding for_each
  Relates-for_each [] body h = Relates-pure o tt
  Relates-for_each (x ∷ xs) body h =
      Relates-bind o (body x) _ (h x) (λ _. Relates-for_each xs body h)
