-- ===== src/Command/Usage.antt =====
-- Actions of cmd/buckle/main.go that fail with a `usageError`, and what of the world these leave alone.
use buckle.Base.{Bool, true, false, Bytes, if◌then◌else◌, ◌≡◌, refl, ◌∙◌}
use buckle.Exec.{Result, ok, err, Exec}
use buckle.Command.{
  Failure, usage_error, help_asked, other, Answer, done, stop, answer_of, Act, pure, fail, lift,
  lift_result, finally, run_on, after, ◌>>=◌,
}

unfoldable pub is_usage : {A : Type 0} → Answer A → Bool
is_usage (stop (usage_error e)) = true
is_usage (stop help_asked) = false
is_usage (stop (other e)) = false
is_usage (done a) = false

-- The action never fails with a `usageError`.
pub record NoUsage {W A : Type 0} (m : Act W A) : Type 0 where
  pub at : (w : W) → is_usage (m w).0 ≡ false

answer_of-NoUsage : {A : Type 0} (r : Result A) → is_usage (answer_of r) ≡ false
unfolding is_usage
answer_of-NoUsage (ok a) = refl
answer_of-NoUsage (err e) = refl

module _ {W A : Type 0} where
  pub NoUsage-pure : (a : A) → NoUsage {W = W} (pure a)
  unfolding is_usage pure
  NoUsage-pure a = record { at = λ w. refl }

  pub NoUsage-other : (e : Bytes) → NoUsage {W = W} {A = A} (fail (other e))
  unfolding is_usage fail
  NoUsage-other e = record { at = λ w. refl }

  pub NoUsage-lift : (m : Exec W A) → NoUsage (lift m)
  unfolding lift
  NoUsage-lift m = record { at = λ w. answer_of-NoUsage (m w).0 }

  pub NoUsage-lift_result : (r : Result A) → NoUsage {W = W} (lift_result r)
  unfolding lift_result
  NoUsage-lift_result r = record { at = λ w. answer_of-NoUsage r }

  pub NoUsage-finally : (m : Act W A) (f : W → W) → NoUsage m → NoUsage (finally m f)
  unfolding finally
  NoUsage-finally m f h = record { at = h.at }

  pub NoUsage-if : (b : Bool) (m n : Act W A) → NoUsage m → NoUsage n → NoUsage (if b then m else n)
  NoUsage-if true m n hm hn = hm
  NoUsage-if false m n hm hn = hn

pub NoUsage-run_on : {W : Type 0} (f : W → W) → NoUsage (run_on f)
unfolding is_usage run_on
NoUsage-run_on f = record { at = λ w. refl }

module _ {W A B : Type 0} where
  after-NoUsage :
      (r : Answer A) (f : A → Act W B) (w : W)
      → is_usage r ≡ false
      → ((a : A) → NoUsage (f a))
      → is_usage (after r f w).0 ≡ false
  unfolding is_usage
  after-NoUsage (done a) f w h hf = (hf a).at w
  after-NoUsage (stop (usage_error e)) f w h hf = h
  after-NoUsage (stop help_asked) f w h hf = h
  after-NoUsage (stop (other e)) f w h hf = h

  pub NoUsage-bind :
      (m : Act W A) (f : A → Act W B) → NoUsage m → ((a : A) → NoUsage (f a)) → NoUsage (m >>= f)
  unfolding ◌>>=◌
  NoUsage-bind m f hm hf = record { at = λ w. after-NoUsage (m w).0 f (m w).1 (hm.at w) hf }

-- What is observed of the world.
module _ {W X : Type 0} (obs : W → X) where
  -- The action never changes it.
  pub record Quiet {A : Type 0} (m : Act W A) : Type 0 where
    pub at : (w : W) → obs (m w).1 ≡ obs w

  -- The action has not changed it when it fails with a `usageError`.
  pub record Untouched {A : Type 0} (m : Act W A) : Type 0 where
    pub at : (w : W) → is_usage (m w).0 ≡ true → obs (m w).1 ≡ obs w

  module _ {A : Type 0} where
    pub Untouched-NoUsage : (m : Act W A) → NoUsage m → Untouched m
    Untouched-NoUsage m h = record { at = λ w e. let k = h.at w in cc }

    pub Untouched-fail : (f : Failure) → Untouched {A = A} (fail f)
    unfolding fail
    Untouched-fail f = record { at = λ w e. refl }

    pub Untouched-if :
        (b : Bool) (m n : Act W A) → Untouched m → Untouched n → Untouched (if b then m else n)
    Untouched-if true m n hm hn = hm
    Untouched-if false m n hm hn = hn

    pub Quiet-pure : (a : A) → Quiet (pure a)
    unfolding pure
    Quiet-pure a = record { at = λ w. refl }

    pub Quiet-fail : (f : Failure) → Quiet {A = A} (fail f)
    unfolding fail
    Quiet-fail f = record { at = λ w. refl }

    pub Quiet-if : (b : Bool) (m n : Act W A) → Quiet m → Quiet n → Quiet (if b then m else n)
    Quiet-if true m n hm hn = hm
    Quiet-if false m n hm hn = hn

  module _ {A B : Type 0} where
    after-Quiet :
        (r : Answer A) (f : A → Act W B) (w : W)
        → ((a : A) → Quiet (f a))
        → obs (after r f w).1 ≡ obs w
    after-Quiet (done a) f w hf = (hf a).at w
    after-Quiet (stop x) f w hf = refl

    pub Quiet-bind :
        (m : Act W A) (f : A → Act W B) → Quiet m → ((a : A) → Quiet (f a)) → Quiet (m >>= f)
    unfolding ◌>>=◌
    Quiet-bind m f hm hf = record { at = λ w. after-Quiet (m w).0 f (m w).1 hf ∙ hm.at w }

    after-Untouched :
        (r : Answer A) (f : A → Act W B) (w : W)
        → ((a : A) → Untouched (f a))
        → is_usage (after r f w).0 ≡ true
        → obs (after r f w).1 ≡ obs w
    after-Untouched (done a) f w hf e = (hf a).at w e
    after-Untouched (stop x) f w hf e = refl

    pub Untouched-bind :
        (m : Act W A) (f : A → Act W B)
        → Quiet m
        → ((a : A) → Untouched (f a))
        → Untouched (m >>= f)
    unfolding ◌>>=◌
    Untouched-bind m f hm hf = record {
      at = λ w e. after-Untouched (m w).0 f (m w).1 hf e ∙ hm.at w;
    }
