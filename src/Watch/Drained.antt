-- ===== src/Watch/Drained.antt =====
-- How the loop of internal/watch/watch.go comes to its end.
use buckle.Base.{
  bytes_eq, ℕ, Bool, true, false, ◌||◌, ◌&&◌, Bytes, List, [], ◌∷◌, Option, none, some, ◌≡◌, ◌≢◌,
  ◌⊎◌, inl, inr, refl, subst, ◌∙◌, arith, is_some, if◌then◌else◌, Bool-cases, drop, length,
}
use mathlib.Core.Bool.{false≢true}
use buckle.Base.Map
use buckle.Exec.{Result, ok, err, Exec}
use buckle.EsLog.{Event}
use buckle.EsLog.Parse.{Unmarshal}
use buckle.EsLog.Parse as EsParse
use buckle.ULog.{Denial}
use buckle.ULog.Parse.{RawLine}
use buckle.ULog.Parse as UParse
use buckle.Watch.{
  Source, Exit, Input, es_line, es_end, log_line, log_end, ticked, cancelled, timed_out, Handlers,
  Watcher, Outcome, Next, goes_on, returns, once, once_each, stop, died, ended, checked, calls,
  schema_is_1, drift_key, take_event, take_es, take_log, take_tick, ready, select, stopped, pass,
  Source, take_inputs, await_both, loop, resume, watching,
}

-- The context was cancelled, or found to be when an output ended.
abbrev pub asks_stop : Input → Bool
asks_stop cancelled = true
asks_stop (es_end done x) = done
asks_stop (log_end done x) = done
asks_stop _ = false

abbrev pub AskedStop : List Input → Type 0
AskedStop [] = ⊥
AskedStop (i ∷ rest) = (asks_stop i ≡ true) ⊎ AskedStop rest

module _ {C : Type 0} where
  -- What the loop's channels and its stop are, is unchanged.
  pub record SameFlags (w v : Watcher C) : Type 0 where
    pub same_es : v.es_open ≡ w.es_open
    pub same_log : v.log_open ≡ w.log_open
    pub same_stop : v.stopping ≡ w.stopping

  once-SameFlags : (key : Bytes) (w : Watcher C) → SameFlags w (once key w)
  unfolding once
  once-SameFlags key w = elim (Bool-cases (is_some (Map.lookup key w.seen))) [
    | inl e ↦ rw e (record { same_es = refl; same_log = refl; same_stop = refl })
    | inr e ↦ rw e (record { same_es = refl; same_log = refl; same_stop = refl })
  ]

  pub SameFlags-refl : (w : Watcher C) → SameFlags w w
  SameFlags-refl w = record { same_es = refl; same_log = refl; same_stop = refl }

  SameFlags-trans : (u v w : Watcher C) → SameFlags u v → SameFlags v w → SameFlags u w
  SameFlags-trans u v w a b = record {
    same_es = b.same_es ∙ a.same_es;
    same_log = b.same_log ∙ a.same_log;
    same_stop = b.same_stop ∙ a.same_stop;
  }

  once_each-SameFlags : (keys : List Bytes) (w : Watcher C) → SameFlags w (once_each keys w)
  unfolding once_each
  once_each-SameFlags [] w = SameFlags-refl w
  once_each-SameFlags (key ∷ keys) w =
      SameFlags-trans w (once key w) _ (once-SameFlags key w)
        (once_each-SameFlags keys (once key w))

  -- An output ends only with the loop's stop.
  abbrev Drained : Watcher C → Type 0
  Drained w = (w.es_open ≡ false → w.stopping ≡ true) × (w.log_open ≡ false → w.stopping ≡ true)

  -- What a pass may do to a drained watcher: it goes on drained, or ends with an error unless both
  -- outputs ended behind a stop; `asked` says that the pass may stop it.
  abbrev Fair : Bool → Watcher C → Next C → Type 0
  Fair asked w (goes_on v) = Drained v × (v.stopping ≡ true → (w.stopping ≡ true) ⊎ (asked ≡ true))
  Fair asked w (returns o v) =
      o.error ≡ none → (o ≡ stopped) × (w.stopping ≡ true) × ((v.es_open || v.log_open) ≡ false)

  -- A pass that leaves the flags as they are, or ends with an error.
  abbrev pub Calm : Watcher C → Next C → Type 0
  Calm w (goes_on v) = SameFlags w v
  Calm w (returns o v) = o.error ≢ none

  Calm-Fair : (asked : Bool) (w : Watcher C) (n : Next C) → Drained w → Calm w n → Fair asked w n
  Calm-Fair asked w (goes_on v) d s = ground (arith, s.same_es, s.same_log, s.same_stop)
  Calm-Fair asked w (returns o v) d s = λ q. absurd (s q)

  pub checked-Calm :
      (r : Result (Unit {0})) (w v : Watcher C) → SameFlags w v → Calm w (checked r v)
  unfolding checked
  checked-Calm (ok u) w v s = s
  checked-Calm (err e) w v s = λ q. cc

  stop-Fair : (w v : Watcher C) → v.stopping ≡ w.stopping → Fair true w (goes_on (stop v))
  unfolding stop
  stop-Fair w v e = ground (arith, e)

  ended-Fair :
      (dead other : Source) (done : Bool) (x : Exit) (w v : Watcher C)
      → v.stopping ≡ w.stopping
      → Fair done w (ended dead other done x v)
  unfolding ended died
  ended-Fair dead other done x w v e = ground (arith, e)

  module _ (h : Handlers C) where
    pub calls-SameFlags : (m : Exec C (Unit {0})) (w : Watcher C) → SameFlags w (calls h m w).1
    unfolding calls
    calls-SameFlags m w =
        SameFlags-trans w (record w { corr = (m w.corr).1 }) _
          (record { same_es = refl; same_log = refl; same_stop = refl })
          (once_each-SameFlags (drop (length (h.warnings_of w.corr)) (h.warnings_of (m w.corr).1))
            (record w { corr = (m w.corr).1 }))

    SameFlags-if :
        (b : Bool) (w u v : Watcher C)
        → SameFlags w u
        → SameFlags w v
        → SameFlags w (if b then u else v)
    SameFlags-if true w u v p q = p
    SameFlags-if false w u v p q = q

    pub take_event-Calm : (ev : Event) (w : Watcher C) → Calm w (take_event h ev w)
    unfolding take_event
    take_event-Calm ev w =
        let s = calls-SameFlags (h.on_event ev) w in
        let v = (calls h (h.on_event ev) w).1 in
        checked-Calm (calls h (h.on_event ev) w).0 w _ (
          SameFlags-if (schema_is_1 ev.schema_version) w v _ s
            (SameFlags-trans w v _ s (once-SameFlags _ v)))

    pub take_es-Calm : (p : EsParse.Parsed Event) (w : Watcher C) → Calm w (take_es h p w)
    unfolding take_es
    take_es-Calm (EsParse.ok ev) w = take_event-Calm ev w
    take_es-Calm EsParse.skip w = SameFlags-refl w
    take_es-Calm (EsParse.drift field) w = (once-SameFlags (drift_key field) w)
    take_es-Calm EsParse.unparseable w = (once-SameFlags _ w)

    pub take_log-Calm :
        (p : UParse.Parsed Denial) (now : ℕ) (w : Watcher C) → Calm w (take_log h p now w)
    unfolding take_log
    take_log-Calm (UParse.ok x) now w =
        checked-Calm (calls h (h.on_denial x now) w).0 w _ (calls-SameFlags (h.on_denial x now) w)
    take_log-Calm UParse.skip now w = SameFlags-refl w
    take_log-Calm UParse.unparseable now w = (once-SameFlags _ w)
    take_log-Calm UParse.bad_timestamp now w = (once-SameFlags _ w)

    module _ (json : Unmarshal) (as_line : Bytes → Option RawLine)
        (as_time : Bytes → Option ℕ) where
      select-Fair :
          (i : Input) (w : Watcher C)
          → Drained w
          → Fair (asks_stop i) w (select h json as_line as_time i w)
      unfolding select take_tick
      select-Fair (es_line line) w d = Calm-Fair false w _ d (take_es-Calm _ w)
      select-Fair (es_end done x) w d = ended-Fair Source.es Source.log done x w _ refl
      select-Fair (log_line line now) w d = Calm-Fair false w _ d (take_log-Calm _ now w)
      select-Fair (log_end done x) w d = ended-Fair Source.log Source.es done x w _ refl
      select-Fair (ticked now) w d =
          Calm-Fair false w _ d
            (checked-Calm (calls h (h.on_tick now) w).0 w _ (calls-SameFlags (h.on_tick now) w))
      select-Fair cancelled w d = stop-Fair w w refl
      select-Fair timed_out w d = ground arith

      pass-Fair :
          (i : Input) (w : Watcher C)
          → Drained w
          → Fair (asks_stop i) w (pass h json as_line as_time i w)
      unfolding pass
      pass-Fair i w d = elim (Bool-cases (w.es_open || w.log_open)) [
        | inl e ↦ elim (Bool-cases (ready i w)) [
          | inl f ↦ rw (e, f) (select-Fair i w d)
          | inr f ↦ rw (e, f) (d, λ q. inl q)
        ]
        | inr e ↦ rw e λ q. (refl, ground (arith, e, d), e)
      ]

      -- An end without an error: both outputs have ended, behind a stop that was asked for.
      abbrev CleanEnd : List Input → Watcher C → Option Outcome × Watcher C → Type 0
      CleanEnd is w (none, v) = Unit
      CleanEnd is w (some o, v) =
          o.error ≡ none
          → (o ≡ stopped)
            × ((v.es_open || v.log_open) ≡ false)
            × ((w.stopping ≡ true) ⊎ AskedStop is)

      CleanEnd-earlier :
          (i : Input) (rest : List Input) (w v : Watcher C) (out : Option Outcome × Watcher C)
          → (v.stopping ≡ true → (w.stopping ≡ true) ⊎ (asks_stop i ≡ true))
          → CleanEnd rest v out
          → CleanEnd (i ∷ rest) w out
      CleanEnd-earlier i rest w v (none, u) f k = tt
      CleanEnd-earlier i rest w v (some o, u) f k = λ q.
          let (e, c, s) = k q in
          (
            e,
            c,
            elim s [
              | inl a ↦ elim (f a) [ inl b ↦ inl b | inr b ↦ inr (inl b) ]
              | inr b ↦ inr (inr b)
            ],
          )

      resume-CleanEnd :
          (i : Input) (rest : List Input) (w : Watcher C)
          (more : Watcher C → Option Outcome × Watcher C) (n : Next C)
          → Fair (asks_stop i) w n
          → ((v : Watcher C) → Drained v → CleanEnd rest v (more v))
          → CleanEnd (i ∷ rest) w (resume more n)
      resume-CleanEnd i rest w more (returns o v) f k = λ q. let (e, s, c) = f q in (e, c, inl s)
      resume-CleanEnd i rest w more (goes_on v) f k =
          CleanEnd-earlier i rest w v (more v) f.1 (k v f.0)

      take_inputs-CleanEnd :
          (is : List Input) (w : Watcher C)
          → Drained w
          → CleanEnd is w (take_inputs h json as_line as_time is w)
      unfolding take_inputs
      take_inputs-CleanEnd [] w d = elim (Bool-cases (w.es_open || w.log_open)) [
        | inl e ↦ rw e tt
        | inr e ↦ rw e λ q. (refl, e, inl (ground (arith, e, d)))
      ]
      take_inputs-CleanEnd (i ∷ rest) w d =
          resume-CleanEnd i rest w (take_inputs h json as_line as_time rest)
            (pass h json as_line as_time i w) (pass-Fair i w d) (take_inputs-CleanEnd rest)

      -- What was awaited had come.
      await_both-some :
          (exits : Source → Bool) (r : Option Outcome × Watcher C) (o : Outcome) (v : Watcher C)
          → await_both exits r ≡ (some o, v)
          → r ≡ (some o, v)
      unfolding await_both
      await_both-some exits (a, w) o v e = waited (exits Source.es && exits Source.log) e
        where
          waited :
              (b : Bool)
              → ◌≡◌ {A = Option Outcome × Watcher C} (if b then a else none, w) (some o, v)
              → ◌≡◌ {A = Option Outcome × Watcher C} (a, w) (some o, v)
          waited true e = e
          waited false e = cc

      -- The loop returns no error only by the end `stopped`, when both outputs have ended and the
      -- context was cancelled.
      pub loop-stopped :
          (exits : Source → Bool) (is : List Input) (c : C) (o : Outcome) (v : Watcher C)
          → loop h json as_line as_time exits is (watching c) ≡ (some o, v)
          → o.error ≡ none
          → (o ≡ stopped) × ((v.es_open || v.log_open) ≡ false) × AskedStop is
      unfolding watching loop
      loop-stopped exits is c o v e q =
          let clean =
            subst (CleanEnd is (watching c)) (await_both-some exits _ o v e)
              (take_inputs-CleanEnd is (watching c) ((λ f. cc), (λ f. cc))) in
          let (same, closed, asked) = clean q in
          (same, closed, elim asked [ inl f ↦ absurd (false≢true f) | inr f ↦ f ])
