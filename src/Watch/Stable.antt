-- ===== src/Watch/Stable.antt =====
-- What every change by the loop of internal/watch/watch.go keeps, the loop keeps.
use buckle.Base.{
  ℕ, Bool, true, false, ◌||◌, Bytes, List, [], ◌∷◌, Option, if◌then◌else◌, drop, length, not,
}
use buckle.Exec.{Result, ok, err, Exec}
use buckle.EsLog.{Event}
use buckle.EsLog.Parse.{Unmarshal}
use buckle.EsLog.Parse as EsParse
use buckle.ULog.{Denial}
use buckle.ULog.Parse.{RawLine}
use buckle.ULog.Parse as UParse
use buckle.Watch.{
  Source, Exit, Signal, Input, es_line, es_end, log_line, log_end, ticked, cancelled, timed_out,
  Handlers, Watcher, Outcome, Next, goes_on, returns, once, once_each, stop, died, ended, checked,
  calls, schema_is_1, drift_key, take_event, take_es, take_log, take_tick, ready, select, pass,
  take_inputs, await_both, loop, resume,
}

-- A call that the loop makes of the correlator.
pub data IsCall {C : Type 0} (h : Handlers C) : Exec C (Unit {0}) → Type 0 where
  event_call : (ev : Event) → IsCall h (h.on_event ev)
  denial_call : (d : Denial) (now : ℕ) → IsCall h (h.on_denial d now)
  tick_call : (now : ℕ) → IsCall h (h.on_tick now)

-- A property that no single change takes away.
pub record Stable {C : Type 0} (h : Handlers C) (P : Watcher C → Type 0) : Type 0 where
  pub on_once : (key : Bytes) (w : Watcher C) → P w → P (once key w)
  pub on_call :
      (m : Exec C (Unit {0})) (w : Watcher C)
      → IsCall h m
      → P w
      → P (record w { corr = (m w.corr).1 })
  pub on_flags :
      (e l s a : Bool) (signals : List Signal) (w : Watcher C)
      → P w
      → P (record w { es_open = e; log_open = l; stopping = s; armed = a; signals = signals })

abbrev pub state_of : {C : Type 0} → Next C → Watcher C
state_of (goes_on v) = v
state_of (returns o v) = v

module _ {C : Type 0} (h : Handlers C) (P : Watcher C → Type 0) (p : Stable h P) where
  once_each-keeps : (keys : List Bytes) (w : Watcher C) → P w → P (once_each keys w)
  unfolding once_each
  once_each-keeps [] w k = k
  once_each-keeps (key ∷ keys) w k = once_each-keeps keys (once key w) (p.on_once key w k)

  calls-keeps : (m : Exec C (Unit {0})) (w : Watcher C) → IsCall h m → P w → P (calls h m w).1
  unfolding calls
  calls-keeps m w i k =
      once_each-keeps (drop (length (h.warnings_of w.corr)) (h.warnings_of (m w.corr).1)) _
        (p.on_call m w i k)

  checked-keeps : (r : Result (Unit {0})) (w : Watcher C) → P w → P (state_of (checked r w))
  unfolding checked
  checked-keeps (ok u) w k = k
  checked-keeps (err e) w k = p.on_flags w.es_open w.log_open w.stopping w.armed _ w k

  if-keeps : (b : Bool) (u v : Watcher C) → P u → P v → P (if b then u else v)
  if-keeps true u v k l = k
  if-keeps false u v k l = l

  stop-keeps : (w : Watcher C) → P w → P (stop w)
  unfolding stop
  stop-keeps w k = if-keeps w.stopping w _ k (p.on_flags w.es_open w.log_open true true _ w k)

  next-if :
      (b : Bool) (m n : Next C)
      → P (state_of m)
      → P (state_of n)
      → P (state_of (if b then m else n))
  next-if true m n k l = k
  next-if false m n k l = l

  ended-keeps :
      (dead other : Source) (done : Bool) (x : Exit) (w : Watcher C)
      → P w
      → P (state_of (ended dead other done x w))
  unfolding ended died
  ended-keeps dead other done x w k = next-if w.stopping (goes_on w) _ k (
      next-if done (goes_on (stop w)) _ (stop-keeps w k)
        (p.on_flags w.es_open w.log_open w.stopping w.armed _ w k))

  take_es-keeps : (r : EsParse.Parsed Event) (w : Watcher C) → P w → P (state_of (take_es h r w))
  unfolding take_es take_event
  take_es-keeps (EsParse.ok ev) w k =
      let l = calls-keeps (h.on_event ev) w (event_call ev) k in
      checked-keeps (calls h (h.on_event ev) w).0 _
        (if-keeps (schema_is_1 ev.schema_version) _ _ l (p.on_once _ _ l))
  take_es-keeps EsParse.skip w k = k
  take_es-keeps (EsParse.drift field) w k = p.on_once (drift_key field) w k
  take_es-keeps EsParse.unparseable w k = p.on_once _ w k

  take_log-keeps :
      (r : UParse.Parsed Denial) (now : ℕ) (w : Watcher C) → P w → P (state_of (take_log h r now w))
  unfolding take_log
  take_log-keeps (UParse.ok d) now w k =
      checked-keeps (calls h (h.on_denial d now) w).0 _
        (calls-keeps (h.on_denial d now) w (denial_call d now) k)
  take_log-keeps UParse.skip now w k = k
  take_log-keeps UParse.unparseable now w k = p.on_once _ w k
  take_log-keeps UParse.bad_timestamp now w k = p.on_once _ w k

  module _ (json : Unmarshal) (as_line : Bytes → Option RawLine) (as_time : Bytes → Option ℕ) where
    select-keeps :
        (i : Input) (w : Watcher C) → P w → P (state_of (select h json as_line as_time i w))
    unfolding select take_tick
    select-keeps (es_line line) w k = take_es-keeps _ w k
    select-keeps (es_end done x) w k =
        ended-keeps Source.es Source.log done x _
          (p.on_flags false w.log_open w.stopping w.armed w.signals w k)
    select-keeps (log_line line now) w k = take_log-keeps _ now w k
    select-keeps (log_end done x) w k =
        ended-keeps Source.log Source.es done x _
          (p.on_flags w.es_open false w.stopping w.armed w.signals w k)
    select-keeps (ticked now) w k =
        checked-keeps (calls h (h.on_tick now) w).0 _
          (calls-keeps (h.on_tick now) w (tick_call now) k)
    select-keeps cancelled w k = stop-keeps w k
    select-keeps timed_out w k = p.on_flags w.es_open w.log_open w.stopping false _ w k

    pass-keeps : (i : Input) (w : Watcher C) → P w → P (state_of (pass h json as_line as_time i w))
    unfolding pass
    pass-keeps i w k =
        next-if (not (w.es_open || w.log_open)) _ _ k
          (next-if (ready i w) _ _ (select-keeps i w k) k)

    resume-keeps :
        (more : Watcher C → Option Outcome × Watcher C) (n : Next C)
        → P (state_of n)
        → ((v : Watcher C) → P v → P (more v).1)
        → P (resume more n).1
    resume-keeps more (goes_on v) k l = l v k
    resume-keeps more (returns o v) k l = k

    take_inputs-keeps :
        (is : List Input) (w : Watcher C) → P w → P (take_inputs h json as_line as_time is w).1
    unfolding take_inputs
    take_inputs-keeps [] w k = k
    take_inputs-keeps (i ∷ rest) w k =
        resume-keeps (take_inputs h json as_line as_time rest) (pass h json as_line as_time i w)
          (pass-keeps i w k) (take_inputs-keeps rest)

    pub loop-keeps :
        (exits : Source → Bool) (is : List Input) (w : Watcher C)
        → P w
        → P (loop h json as_line as_time exits is w).1
    unfolding loop await_both
    loop-keeps exits is w k = take_inputs-keeps is w k
