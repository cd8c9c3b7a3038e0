-- ===== src/Correlate/Ledger/Rounds.antt =====
-- `Tick` and `Shutdown` of internal/correlate/correlator.go move what waits into what is counted.

use buckle.Base.{
  ℕ, ◌+◌, ◌*◌, Bool, true, false, ◌&&◌, List, [], ◌∷◌, ◌++◌, append-nil, append_assoc, Option, none,
  some, ◌≡◌, refl, sym, ap, ◌∙◌, subst, arith, if◌then◌else◌, is_some, nat_eq, bytes_eq, pair_eq,
  inl, inr, leb, All, All-imp,
}
use buckle.Base.Map
use buckle.Exec.{Result, ok, err, Exec, pure, modify, ◌>>◌, for_each}
use buckle.Exec.Frame.{Relates}
use buckle.Exec.Outcome.{Ends, Ends-pure, Ends-Relates, Ends-bind, Ends-read, Ends-if}
use buckle.Correlate.Sink.{Sink}
use buckle.Correlate.State.{State, Deps, DenialKey, Pending, eslogger_behind, lag_cap_factor}
use buckle.Correlate.Images.{member_of, resolve, caught_up}
use buckle.Correlate.Denials.{attribute}
use buckle.Correlate.Finalize.{finalize}
use buckle.Correlate.Ticks.{overwritten, set_pending, attribute_or_keep, tick_one, tick_list}
use buckle.Correlate.Ledger.{Ledger, Step, Step-refl, Step-trans, calm_then, elsewhere-Step}
use buckle.Correlate.Ledger.Settles.{attribute-Ends}
use buckle.Correlate.Ledger.Forgets.{Counts, Forgotten}
use buckle.Correlate.Ledger.Finals.{finalize-Ends}
use buckle.Correlate.Ledger.Waiting.{weight, Waits}

module _ {D : Type 0} (sink : Sink D) (deps : Deps) (l : Ledger sink) where
  -- What a round does with one pending: it is kept, or counted and forgotten.
  abbrev Rounded : Pending → State D → Bool → State D → Type 0
  Rounded p s true t = Step l.tally 0 0 s t
  Rounded p s false t = Counts l.tally p s t × Forgotten p t

  counted_then-Ends :
      (p : Pending) (m : Exec (State D) (Unit {0}))
      → Ends (λ s u t. Counts l.tally p s t × Forgotten p t) m
      → Ends (Rounded p) (m >> pure false)
  counted_then-Ends p m h =
      Ends-bind (λ s u t. Counts l.tally p s t × Forgotten p t) (λ u s b t. (b ≡ false) × (t ≡ s))
        (Rounded p) m (λ u. pure false) h (λ u. Ends-pure _ false (λ s. (refl, refl)))
        λ s t v u b one two.
          subst (λ x. Rounded p s x v) (sym two.0)
            (subst (λ x. Counts l.tally p s x × Forgotten p x) (sym two.1) one)

  attribute_or_keep-Ends :
      (p : Pending) (o : Option ℕ) → Ends (Rounded p) (attribute_or_keep sink deps p o)
  unfolding attribute_or_keep
  attribute_or_keep-Ends p none = Ends-pure (Rounded p) true (Step-refl l.tally)
  attribute_or_keep-Ends p (some a) = counted_then-Ends p (attribute sink deps p a) (record {
    at = λ s t u e.
        let (step, gone) = (attribute-Ends sink deps l p a).at s t u e in
        (record { lost = 0; step = step; none_lost = λ h. refl }, gone);
  })

  calm-Rounded :
      (p : Pending) (s t v : State D) (b : Bool)
      → Step l.tally 0 0 s t
      → Rounded p t b v
      → Rounded p s b v
  calm-Rounded p s t v true c h = calm_then l.tally 0 0 s t v c h
  calm-Rounded p s t v false c (h, gone) = (
    record {
      lost = h.lost;
      step = calm_then l.tally p.count h.lost s t v c h.step;
      none_lost = λ e. h.none_lost (c.stays_seen p.d.pid e);
    },
    gone,
  )

  warned-Step :
      Relates
        (Step {D = D} l.tally 0 0)
        (modify (λ s. record s { warnings = s.warnings ++ eslogger_behind ∷ [] }))
  warned-Step =
      elsewhere-Step l.tally (λ s. record s { warnings = s.warnings ++ eslogger_behind ∷ [] })
        (λ s. refl) (λ s. refl) (λ s. refl) (λ s. refl) (λ s. refl) (λ s. refl)

  tick_one-Ends : (now : ℕ) (p : Pending) → Ends (Rounded p) (tick_one sink deps now p)
  unfolding tick_one
  tick_one-Ends now p =
      Ends-read (Rounded p) (λ s. caught_up s p.d.time) _
        λ caught.
          Ends-read (Rounded p) (λ s. s.cfg.buffer) _
            λ buffer.
              Ends-if (Rounded p) (caught && leb (p.arrived + buffer) now) _ _
                (counted_then-Ends p _ (finalize-Ends sink deps l p true))
                (Ends-if (Rounded p) (leb (p.arrived + lag_cap_factor * buffer) now) _ _
                  (Ends-bind (λ s u t. Step l.tally 0 0 s t) (λ u. Rounded p) (Rounded p) _ _
                    (Ends-Relates warned-Step)
                    (λ u. counted_then-Ends p _ (finalize-Ends sink deps l p false))
                    (λ s t v u b. calm-Rounded p s t v b))
                  (Ends-read (Rounded p) (λ s. resolve s p.d.pid p.d.time) _
                    λ found.
                      Ends-read (Rounded p) (λ s. member_of s found) _
                        λ member.
                          attribute_or_keep-Ends p (if caught && member then found else none)))

  -- What is left of `rest`, and what happened to the others.
  pub record Listed (pid : ℕ) (kept rest : List Pending) (s t : State D) : Type 0 where
    pub extra : List Pending
    pub gained : ℕ
    pub lost : ℕ
    pub before : State D
    pub step : Step l.tally gained lost s before
    pub split : gained + weight extra ≡ weight rest
    pub stays :
        (key : DenialKey) (ref : ℕ)
        → Map.lookup key before.last_pending ≡ some ref
        → Waits ref key rest
        → Waits ref key extra
    pub none_lost :
        All (λ (p : Pending). is_some (Map.lookup p.d.pid s.seen) ≡ true) rest
        → (lost ≡ 0) × All (λ (p : Pending). is_some (Map.lookup p.d.pid before.seen) ≡ true) extra
    pub set_is : t ≡ set_pending pid (kept ++ extra) before

  keep_first :
      (pid : ℕ) (kept rest : List Pending) (p : Pending) (s v t : State D)
      → Step l.tally 0 0 s v
      → Listed pid (kept ++ p ∷ []) rest v t
      → Listed pid kept (p ∷ rest) s t
  keep_first pid kept rest p s v t c h = record {
    extra = p ∷ h.extra;
    gained = h.gained;
    lost = h.lost;
    before = h.before;
    step = calm_then l.tally h.gained h.lost s v h.before c h.step;
    split = omega (arith, h.split);
    stays = λ key ref e w. elim w [ inl x ↦ inl x | inr x ↦ inr (h.stays key ref e x) ];
    none_lost = λ q.
        let (no_loss, all) = h.none_lost (All-imp _ _ (λ r x. c.stays_seen r.d.pid x) rest q.1) in
        (no_loss, (h.step.stays_seen p.d.pid (c.stays_seen p.d.pid q.0), all));
    set_is = h.set_is ∙ ap (λ m. set_pending pid m h.before) (append_assoc kept (p ∷ []) h.extra);
  }

  count_first :
      (pid : ℕ) (kept rest : List Pending) (p : Pending) (s v t : State D)
      → Counts l.tally p s v × Forgotten p v
      → Listed pid kept rest v t
      → Listed pid kept (p ∷ rest) s t
  count_first pid kept rest p s v t (c, gone) h = record {
    extra = h.extra;
    gained = p.count + h.gained;
    lost = c.lost + h.lost;
    before = h.before;
    step = Step-trans l.tally p.count c.lost h.gained h.lost s v h.before c.step h.step;
    split = omega (arith, h.split);
    stays = λ key ref e w. elim w [
      | inl x ↦
          elim (gone (
            subst (λ k. Map.lookup k v.last_pending ≡ some p.ref) (sym x.1)
              (h.step.last_shrinks key ref e ∙ ap (λ n. some n) (sym x.0)))) [ ]
      | inr x ↦ h.stays key ref e x
    ];
    none_lost = λ q.
        let (no_loss, all) =
          h.none_lost (All-imp _ _ (λ r x. c.step.stays_seen r.d.pid x) rest q.1) in
        (omega (arith, no_loss, c.none_lost q.0), all);
    set_is = h.set_is;
  }

  one_more :
      (pid now : ℕ) (list kept rest : List Pending) (p : Pending)
      → ((next : List Pending)
          → Ends (λ s u t. Listed pid next rest s t) (tick_list sink deps pid now list next rest))
      → (s v t : State D) (u : Unit {0}) (r : Result Bool) → tick_one sink deps now p s ≡ (r, v)
      → (elim r as (λ x. Result (Unit {0}) × State D) [
        | ok keep ↦ tick_list sink deps pid now list (if keep then kept ++ p ∷ [] else kept) rest v
        | err e ↦ (err e, set_pending pid (overwritten kept list) v)
      ])
        ≡ (ok u, t)
      → Listed pid kept (p ∷ rest) s t
  one_more pid now list kept rest p h s v t u (ok true) q e =
      keep_first pid kept rest p s v t ((tick_one-Ends now p).at s v true q)
        ((h (kept ++ p ∷ [])).at v t u e)
  one_more pid now list kept rest p h s v t u (ok false) q e =
      count_first pid kept rest p s v t ((tick_one-Ends now p).at s v false q) ((h kept).at v t u e)
  one_more pid now list kept rest p h s v t u (err x) q e = cc

  pub tick_list-Ends :
      (pid now : ℕ) (list kept rest : List Pending)
      → Ends (λ s u t. Listed pid kept rest s t) (tick_list sink deps pid now list kept rest)
  unfolding tick_list
  tick_list-Ends pid now list kept [] = record {
    at = λ s t u e. record {
      extra = [];
      gained = 0;
      lost = 0;
      before = s;
      step = Step-refl l.tally s;
      split = refl;
      stays = λ key ref q w. w;
      none_lost = λ q. (refl, tt);
      set_is = sym (ap (λ x. x.1) e) ∙ ap (λ m. set_pending pid m s) (sym (append-nil kept));
    };
  }
  tick_list-Ends pid now list kept (p ∷ rest) = record {
    at = λ s t u e.
        one_more pid now list kept rest p (λ next. tick_list-Ends pid now list next rest) s
          (tick_one sink deps now p s).1 t u (tick_one sink deps now p s).0 refl e;
  }

  -- `Shutdown` finalizes the whole list.
  pub finalize_all-Ends :
      (pid : ℕ) (rest : List Pending)
      → Ends
          (λ s u t. Listed pid [] rest s (set_pending pid [] t))
          (for_each rest (λ p. finalize sink deps p true))
  unfolding for_each
  finalize_all-Ends pid [] = Ends-pure _ tt λ s. record {
    extra = [];
    gained = 0;
    lost = 0;
    before = s;
    step = Step-refl l.tally s;
    split = refl;
    stays = λ key ref q w. w;
    none_lost = λ q. (refl, tt);
    set_is = refl;
  }
  finalize_all-Ends pid (p ∷ rest) =
      Ends-bind (λ s u t. Counts l.tally p s t × Forgotten p t)
        (λ u s v t. Listed pid [] rest s (set_pending pid [] t))
        (λ s u t. Listed pid [] (p ∷ rest) s (set_pending pid [] t)) (finalize sink deps p true)
        (λ u. for_each rest (λ p. finalize sink deps p true)) (finalize-Ends sink deps l p true)
        (λ u. finalize_all-Ends pid rest)
        λ s v t a b f g. count_first pid [] rest p s v (set_pending pid [] t) f g
