-- ===== src/Correlate/Newest.antt =====
-- `resolve` of internal/correlate/correlator.go, against a description of the image it returns.
use buckle.Base.{
  ℕ, ◌+◌, ◌≤◌, ◌<◌, true, false, List, [], ◌∷◌, ◌++◌, Option, none, some, ◌≡◌, refl, ap, ◌∙◌, subst,
  ◌↔◌, arith, All, Bool-cases, inl, inr, ltb, if◌then◌else◌,
}
use buckle.Correlate.State.{State, image, pids_images, time_slack}
use buckle.Correlate.Images.{resolve_loop, resolve, reverse_onto}

module _ {D : Type 0} (s : State D) (t : ℕ) where
  -- An image that starts too late for the time `t`.
  abbrev StartsLater : ℕ → Type 0
  StartsLater a = t + time_slack < (image s a).start

  -- An image that has started by then and has not ended before.
  abbrev pub RunsAt : ℕ → Type 0
  RunsAt a =
      ((image s a).start ≤ t + time_slack)
      × ((e : ℕ) → (image s a).ended_at ≡ some e → t ≤ e + time_slack)

  -- `a` runs at `t`, and all that the list names before it start later.
  pub record FirstRunning (l : List ℕ) (a : ℕ) : Type 0 where
    pub newer : List ℕ
    pub older : List ℕ
    pub split : l ≡ newer ++ a ∷ older
    pub all_later : All StartsLater newer
    pub runs : RunsAt a

  skip_newer :
      (b : ℕ) (l : List ℕ) (a : ℕ)
      → ltb (t + time_slack) (image s b).start ≡ true
      → FirstRunning l a
      → FirstRunning (b ∷ l) a
  skip_newer b l a e f = record {
    newer = b ∷ f.newer;
    older = f.older;
    split = ap (λ x. b ∷ x) f.split;
    all_later = (ground arith, f.all_later);
    runs = f.runs;
  }

  -- What the loop does with an image that has started.
  unfoldable found_or_over : ℕ → Option ℕ → Option ℕ
  found_or_over b none = some b
  found_or_over b (some e) = if ltb (e + time_slack) t then none else some b

  found-RunsAt :
      (b a : ℕ) (o : Option ℕ)
      → found_or_over b o ≡ some a
      → (b ≡ a) × ((e : ℕ) → o ≡ some e → t ≤ e + time_slack)
  unfolding found_or_over
  found-RunsAt b a none h = (ground arith, λ e p. ground arith)
  found-RunsAt b a (some x) h = (ground arith, λ e p. ground arith)

  RunsAt-found :
      (a : ℕ) (o : Option ℕ)
      → ((e : ℕ) → o ≡ some e → t ≤ e + time_slack)
      → found_or_over a o ≡ some a
  unfolding found_or_over
  RunsAt-found a none h = refl
  RunsAt-found a (some e) h = let p = h e refl in ground arith

  here :
      (b : ℕ) (l : List ℕ) (a : ℕ)
      → ltb (t + time_slack) (image s b).start ≡ false
      → found_or_over b (image s b).ended_at ≡ some a
      → FirstRunning (b ∷ l) a
  here b l a e h =
      let (same, alive) = found-RunsAt b a (image s b).ended_at h in
      record {
        newer = [];
        older = l;
        split = ap (λ x. x ∷ l) same;
        all_later = tt;
        runs = subst RunsAt same (ground arith, alive);
      }

  resolve_loop-FirstRunning : (l : List ℕ) (a : ℕ) → resolve_loop s t l ≡ some a → FirstRunning l a
  unfolding resolve_loop found_or_over
  resolve_loop-FirstRunning [] a h = ground arith
  resolve_loop-FirstRunning (b ∷ l) a h =
      elim (Bool-cases (ltb (t + time_slack) (image s b).start)) [
        | inl e ↦ skip_newer b l a e (resolve_loop-FirstRunning l a (rw e at h))
        | inr e ↦ here b l a e (rw e at h)
      ]

  FirstRunning-resolve_loop :
      (newer older : List ℕ) (a : ℕ)
      → All StartsLater newer
      → RunsAt a
      → resolve_loop s t (newer ++ a ∷ older) ≡ some a
  unfolding resolve_loop found_or_over
  FirstRunning-resolve_loop [] older a h (started, alive) =
      let e : ltb (t + time_slack) (image s a).start ≡ false = ground arith in
      rw e (RunsAt-found a (image s a).ended_at alive)
  FirstRunning-resolve_loop (b ∷ newer) older a h r =
      let rest = FirstRunning-resolve_loop newer older a h.1 r in
      let later = h.0 in ground (arith, rest)

-- `resolve` returns an image exactly when it is the first of the pid's images, read from the last
-- to the first, that starts no later than the time and its slack, and it has not ended more than
-- the slack before that time.
pub resolve-FirstRunning :
    {D : Type 0} (s : State D) (pid t a : ℕ)
    → (resolve s pid t ≡ some a) ↔ FirstRunning s t (reverse_onto [] (pids_images s pid)) a
unfolding resolve
resolve-FirstRunning s pid t a = (
  resolve_loop-FirstRunning s t (reverse_onto [] (pids_images s pid)) a,
  λ f.
      ap (resolve_loop s t) f.split
      ∙ FirstRunning-resolve_loop s t f.newer f.older a f.all_later f.runs,
)
