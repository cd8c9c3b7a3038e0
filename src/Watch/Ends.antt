-- ===== src/Watch/Ends.antt =====
-- The loop of internal/watch/watch.go ends when both outputs and both processes do.
use buckle.Base.{
  ℕ, Bool, true, false, ◌||◌, Bytes, List, [], ◌∷◌, Option, none, ◌≡◌, ◌≢◌, ◌⊎◌, inl, inr, refl,
  arith, Bool-cases,
}
use buckle.EsLog.Parse.{Unmarshal}
use buckle.ULog.Parse.{RawLine}
use buckle.Watch.{
  Source, Exit, Input, es_line, es_end, log_line, log_end, ticked, cancelled, timed_out, Handlers,
  Watcher, Outcome, Next, goes_on, returns, stop, died, ended, calls, take_tick, ready, select,
  pass, take_inputs, await_both, loop, resume,
}
use buckle.Watch.Drained.{Calm, checked-Calm, take_es-Calm, take_log-Calm, calls-SameFlags}

abbrev is_es_end : Input → Bool
is_es_end (es_end done x) = true
is_es_end _ = false

abbrev is_log_end : Input → Bool
is_log_end (log_end done x) = true
is_log_end _ = false

-- Some input passes the test.
abbrev Some : (Input → Bool) → List Input → Type 0
Some p [] = ⊥
Some p (i ∷ rest) = (p i ≡ true) ⊎ Some p rest

abbrev pub EsEnds : List Input → Type 0
EsEnds = Some is_es_end

abbrev pub LogEnds : List Input → Type 0
LogEnds = Some is_log_end

module _ {C : Type 0} where
  -- A pass opens no output, and closes the one that ended.
  abbrev Closes : Input → Watcher C → Next C → Type 0
  Closes i w (goes_on v) =
      ((w.es_open ≡ false) ⊎ (is_es_end i ≡ true) → v.es_open ≡ false)
      × ((w.log_open ≡ false) ⊎ (is_log_end i ≡ true) → v.log_open ≡ false)
  Closes i w (returns o v) = Unit

  Calm-Closes :
      (i : Input) (w : Watcher C) (n : Next C)
      → is_es_end i ≡ false
      → is_log_end i ≡ false
      → Calm w n
      → Closes i w n
  Calm-Closes i w (goes_on v) e l s = ground (arith, e, l, s.same_es, s.same_log)
  Calm-Closes i w (returns o v) e l s = tt

  stop-Closes : (w : Watcher C) → ((stop w).es_open ≡ w.es_open) × ((stop w).log_open ≡ w.log_open)
  unfolding stop
  stop-Closes w = ground arith

  ended-Closes :
      (i : Input) (dead other : Source) (done : Bool) (x : Exit) (w v : Watcher C)
      → Closes i w (goes_on v)
      → Closes i w (ended dead other done x v)
  unfolding ended died
  ended-Closes i dead other done x w v c = ground (arith, stop-Closes v)

module _ {C : Type 0} (h : Handlers C) (json : Unmarshal) (as_line : Bytes → Option RawLine)
    (as_time : Bytes → Option ℕ) where
  select-Closes : (i : Input) (w : Watcher C) → Closes i w (select h json as_line as_time i w)
  unfolding select take_tick
  select-Closes (es_line line) w = Calm-Closes (es_line line) w _ refl refl (take_es-Calm h _ w)
  select-Closes (es_end done x) w =
      ended-Closes (es_end done x) Source.es Source.log done x w _ (ground arith)
  select-Closes (log_line line now) w =
      Calm-Closes (log_line line now) w _ refl refl (take_log-Calm h _ now w)
  select-Closes (log_end done x) w =
      ended-Closes (log_end done x) Source.log Source.es done x w _ (ground arith)
  select-Closes (ticked now) w =
      Calm-Closes (ticked now) w _ refl refl
        (checked-Calm (calls h (h.on_tick now) w).0 w _ (calls-SameFlags h (h.on_tick now) w))
  select-Closes cancelled w = ground (arith, stop-Closes w)
  select-Closes timed_out w = ground arith

  -- An end that is not ready is that of an output that has ended already.
  unready-Closes : (i : Input) (w : Watcher C) → ready i w ≡ false → Closes i w (goes_on w)
  unfolding ready
  unready-Closes (es_end done x) w e = ground (arith, e)
  unready-Closes (log_end done x) w e = ground (arith, e)
  unready-Closes (es_line b) w e = ground arith
  unready-Closes (log_line b now) w e = ground arith
  unready-Closes (ticked now) w e = ground arith
  unready-Closes cancelled w e = ground arith
  unready-Closes timed_out w e = ground arith

  pass-Closes : (i : Input) (w : Watcher C) → Closes i w (pass h json as_line as_time i w)
  unfolding pass
  pass-Closes i w = elim (Bool-cases (w.es_open || w.log_open)) [
    | inl e ↦ elim (Bool-cases (ready i w)) [
      | inl f ↦ rw (e, f) (select-Closes i w)
      | inr f ↦ rw (e, f) (unready-Closes i w f)
    ]
    | inr e ↦ rw e tt
  ]

  resume-ends :
      (i : Input) (w : Watcher C) (more : Watcher C → Option Outcome × Watcher C) (n : Next C)
      → Closes i w n
      → ((v : Watcher C) → Closes i w (goes_on v) → (more v).0 ≢ none)
      → (resume more n).0 ≢ none
  resume-ends i w more (goes_on v) c k = k v c
  resume-ends i w more (returns o v) c k = λ e. cc

  carried :
      {A B : Type 0} {b c : Bool}
      → ((b ≡ false) ⊎ A → c ≡ false)
      → (b ≡ false) ⊎ A ⊎ B
      → (c ≡ false) ⊎ B
  carried f (inl e) = inl (f (inl e))
  carried f (inr (inl a)) = inl (f (inr a))
  carried f (inr (inr s)) = inr s

  loop_ends_from :
      (is : List Input) (w : Watcher C)
      → (w.es_open ≡ false) ⊎ EsEnds is
      → (w.log_open ≡ false) ⊎ LogEnds is
      → (take_inputs h json as_line as_time is w).0 ≢ none
  unfolding take_inputs
  loop_ends_from [] w e l = ground (arith, e, l)
  loop_ends_from (i ∷ rest) w e l =
      resume-ends i w (take_inputs h json as_line as_time rest) (pass h json as_line as_time i w)
        (pass-Closes i w) λ v c. loop_ends_from rest v (carried c.0 e) (carried c.1 l)

  await_both-ends :
      (exits : Source → Bool) (r : Option Outcome × Watcher C)
      → exits Source.es ≡ true
      → exits Source.log ≡ true
      → r.0 ≢ none
      → (await_both exits r).0 ≢ none
  unfolding await_both
  await_both-ends exits (o, w) p q n = rw (p, q) n

  -- The loop ends, from any state, when both outputs end among its inputs and the processes of both
  -- sources end.
  pub loop_ends :
      (exits : Source → Bool) (is : List Input) (w : Watcher C)
      → EsEnds is
      → LogEnds is
      → exits Source.es ≡ true
      → exits Source.log ≡ true
      → (loop h json as_line as_time exits is w).0 ≢ none
  unfolding loop
  loop_ends exits is w e l p q =
      await_both-ends exits (take_inputs h json as_line as_time is w) p q
        (loop_ends_from is w (inr e) (inr l))
