-- ===== src/Watch.antt =====
-- internal/watch/watch.go: the loop that feeds the correlator from its two sources. What `select`
-- hands to the loop is a list of inputs; an input on a channel that is nil is one that `select`
-- cannot choose, and is passed over. Signals to the sources are recorded, not sent.
pub mod Tail
pub mod Drained
pub mod Ends
pub mod Stable
pub mod Once
pub mod Attached
pub mod Run
use buckle.Base.{
  ℕ, Bool, true, false, not, ◌&&◌, ◌||◌, Bytes, codes, List, [], ◌∷◌, ◌++◌, Option, none, some,
  is_some, contains, drop, length, if◌then◌else◌, bytes_eq, ◌==◌,
}
use buckle.Base.Int.{ℤ, pos, int_eq}
use buckle.Base.Map
use buckle.Base.Map.{Map}
use buckle.Exec.{Result, ok, err, Exec}
use buckle.EsLog.{Event}
use buckle.EsLog.Parse.{Unmarshal}
use buckle.EsLog.Parse as EsParse
use buckle.ULog.{Denial}
use buckle.ULog.Parse.{RawLine}
use buckle.ULog.Parse as UParse

pub data Source : Type 0 where
  es log : Source

-- `source.name`
unfoldable pub source_name : Source → Bytes
source_name es = codes "eslogger"
source_name log = codes "log"

pub data Signal : Type 0 where
  interrupted killed abandoned : Source → Signal

-- How a process ended: the error of reading its output, that of waiting for it, and the tail of
-- its standard error.
pub record Exit : Type 0 where
  pub scan_err : Option Bytes
  pub wait_err : Option Bytes
  pub stderr : Bytes

-- What `select` can hand over. An output's end says whether the context was done within
-- `signalRaceGrace`, which is read where the loop is not stopping.
pub data Input : Type 0 where
  es_line : Bytes → Input
  es_end : Bool → Exit → Input
  log_line : Bytes → ℕ → Input
  log_end : Bool → Exit → Input
  ticked : ℕ → Input
  cancelled : Input
  timed_out : Input

-- What the loop asks of the correlator, and the warnings that it has given so far.
pub record Handlers (C : Type 0) : Type 0 where
  pub on_event : Event → Exec C (Unit {0})
  pub on_denial : Denial → ℕ → Exec C (Unit {0})
  pub on_tick : ℕ → Exec C (Unit {0})
  pub warnings_of : C → List Bytes

-- The variables of `loop`, and the warner's. `logged` holds the keys of the logged warnings, newest
-- first; `armed` says that `deadline` is not nil.
pub record Watcher (C : Type 0) : Type 0 where
  pub corr : C
  pub es_open : Bool
  pub log_open : Bool
  pub stopping : Bool
  pub armed : Bool
  pub seen : Map Bytes Bool
  pub logged : List Bytes
  pub signals : List Signal

-- The error and the end reason that `loop` returns.
pub record Outcome : Type 0 where
  pub error : Option Bytes
  pub reason : Bytes

abbrev pub stopped : Outcome
stopped = record { error = none; reason = codes "stopped" }

pub data Next (C : Type 0) : Type 0 where
  goes_on : Watcher C → Next C
  returns : Outcome → Watcher C → Next C

abbrev scan_part : Option Bytes → Bytes
scan_part none = []
scan_part (some e) = codes " (reading output: " ++ (e ++ codes ")")

abbrev wait_part : Option Bytes → Bytes
wait_part none = codes " (exited 0)"
wait_part (some e) = codes " (" ++ (e ++ codes ")")

abbrev stderr_part : Bytes → Bytes
stderr_part [] = []
stderr_part (c ∷ cs) = codes ": " ++ (c ∷ cs)

-- `exitError`
unfoldable pub exit_error : Source → Exit → Bytes
unfolding source_name
exit_error s x =
    codes "source died: "
    ++ (source_name s ++ (scan_part x.scan_err ++ (wait_part x.wait_err ++ stderr_part x.stderr)))

abbrev is_es : Source → Bool
is_es es = true
is_es log = false

abbrev arrow : Bytes
arrow = 0xe2 ∷ 0x86 ∷ 0x92 ∷ []

abbrev full_disk_access : Bytes
full_disk_access =
    codes "eslogger was denied: grant Full Disk Access to the terminal app running buckle "
    ++ (codes "(System Settings "
        ++ (arrow
            ++ (codes " Privacy & Security "
                ++ (arrow ++ codes " Full Disk Access), restart it, and try again\n"))))

-- the error of `died`
unfoldable pub death : Source → Exit → Bytes
unfolding exit_error contains
death s x =
    let e = exit_error s x in
    if is_es s && contains e (codes "NOT_PERMITTED") then full_disk_access ++ e else e

unfoldable pub drift_key : Bytes → Bytes
drift_key field = codes "drift:" ++ field

-- How the loop goes on behind a pass.
abbrev pub resume :
    {C : Type 0} → (Watcher C → Option Outcome × Watcher C) → Next C → Option Outcome × Watcher C
resume more (goes_on v) = more v
resume more (returns o v) = (some o, v)

-- What `schema_version`'s warning is about.
abbrev schema_is_1 : ℤ → Bool
schema_is_1 v = v == pos 1

-- Each way out of the `for` waits until the `done` of both sources is closed, which is when their
-- processes have ended: behind it by itself, and in an error's return by `abandon` and `exitError`.
-- `none` is no end.
unfoldable pub await_both :
    {C : Type 0} → (Source → Bool) → Option Outcome × Watcher C → Option Outcome × Watcher C
await_both exits (o, w) = (if exits es && exits log then o else none, w)

module _ {C : Type 0} where
  -- `warner.once`
  unfoldable pub once : Bytes → Watcher C → Watcher C
  unfolding Map.lookup Map.insert
  once key w =
      if is_some (Map.lookup key w.seen)
      then w
      else record w { seen = Map.insert key true w.seen; logged = key ∷ w.logged }

  unfoldable pub once_each : List Bytes → Watcher C → Watcher C
  unfolding once
  once_each [] w = w
  once_each (key ∷ keys) w = once_each keys (once key w)

  -- `stop`
  unfoldable pub stop : Watcher C → Watcher C
  stop w = if w.stopping then w else record w {
    stopping = true;
    armed = true;
    signals = interrupted log ∷ interrupted es ∷ w.signals;
  }

  -- `died`, and the return behind it
  unfoldable pub died : Source → Source → Bool → Exit → Watcher C → Next C
  unfolding stop death source_name
  died dead other done x w =
      if done
      then goes_on (stop w)
      else returns
          (record {
            error = some (death dead x);
            reason = codes "source died: " ++ source_name dead;
          })
          (record w { signals = abandoned other ∷ w.signals })

  -- an output that ends
  unfoldable pub ended : Source → Source → Bool → Exit → Watcher C → Next C
  unfolding died
  ended dead other done x w = if w.stopping then goes_on w else died dead other done x w

  -- the end of the loop's body
  unfoldable pub checked : Result (Unit {0}) → Watcher C → Next C
  checked (ok u) w = goes_on w
  checked (err e) w =
      returns (record { error = some (codes "record: " ++ e); reason = codes "error: " ++ e })
        (record w { signals = abandoned log ∷ abandoned es ∷ w.signals })

  -- Which inputs `select` can choose.
  unfoldable pub ready : Input → Watcher C → Bool
  ready (es_line b) w = w.es_open
  ready (es_end done x) w = w.es_open
  ready (log_line b now) w = w.log_open
  ready (log_end done x) w = w.log_open
  ready (ticked now) w = true
  ready cancelled w = not w.stopping
  ready timed_out w = w.armed

module _ {C : Type 0} (h : Handlers C) where
  -- A call of the correlator: its error is kept, and its warnings go through the warner.
  unfoldable pub calls : Exec C (Unit {0}) → Watcher C → Result (Unit {0}) × Watcher C
  unfolding once_each
  calls m w =
      let (r, c) = m w.corr in
      let fresh = drop (length (h.warnings_of w.corr)) (h.warnings_of c) in
      (r, once_each fresh (record w { corr = c }))

  -- the case of a parsed event, with the warning about its schema
  unfoldable pub take_event : Event → Watcher C → Next C
  unfolding calls once checked
  take_event ev w =
      let (r, v) = calls (h.on_event ev) w in
      checked r (if schema_is_1 ev.schema_version then v else once (codes "schema") v)

  unfoldable pub take_es : EsParse.Parsed Event → Watcher C → Next C
  unfolding take_event once drift_key
  take_es (EsParse.ok ev) w = take_event ev w
  take_es EsParse.skip w = goes_on w
  take_es (EsParse.drift field) w = goes_on (once (drift_key field) w)
  take_es EsParse.unparseable w = goes_on (once (codes "eslog-parse") w)

  abbrev pub checks : Result (Unit {0}) × Watcher C → Next C
  checks (r, w) = checked r w

  unfoldable pub take_log : UParse.Parsed Denial → ℕ → Watcher C → Next C
  unfolding calls once checked
  take_log (UParse.ok d) now w = checks (calls (h.on_denial d now) w)
  take_log UParse.skip now w = goes_on w
  take_log _ now w = goes_on (once (codes "ulog-parse") w)

  unfoldable pub take_tick : ℕ → Watcher C → Next C
  unfolding calls checked
  take_tick now w = checks (calls (h.on_tick now) w)

module _ {C : Type 0} (h : Handlers C) (json : Unmarshal) (as_line : Bytes → Option RawLine)
    (as_time : Bytes → Option ℕ) where
  -- the cases of the `select`
  unfoldable pub select : Input → Watcher C → Next C
  unfolding take_es take_log take_tick ended stop
  select (es_line line) w = take_es h (EsParse.parse json line) w
  select (es_end done x) w = ended es log done x (record w { es_open = false })
  select (log_line line now) w = take_log h (UParse.parse as_line as_time line) now w
  select (log_end done x) w = ended log es done x (record w { log_open = false })
  select (ticked now) w = take_tick h now w
  select cancelled w = goes_on (stop w)
  select timed_out w =
      goes_on (record w { armed = false; signals = killed log ∷ killed es ∷ w.signals })

  -- one pass through the `for`, its condition first
  unfoldable pub pass : Input → Watcher C → Next C
  unfolding ready select
  pass i w =
      if not (w.es_open || w.log_open)
      then returns stopped w
      else if ready i w
      then select i w
      else goes_on w

  -- the `for`; `none` is no end, the inputs ran out
  unfoldable pub take_inputs : List Input → Watcher C → Option Outcome × Watcher C
  unfolding pass
  take_inputs [] w = (if w.es_open || w.log_open then none else some stopped, w)
  take_inputs (i ∷ rest) w = resume (take_inputs rest) (pass i w)

  -- `loop`, for the processes that end
  unfoldable pub loop : (Source → Bool) → List Input → Watcher C → Option Outcome × Watcher C
  unfolding take_inputs await_both
  loop exits is w = await_both exits (take_inputs is w)

unfoldable pub watching : {C : Type 0} → C → Watcher C
watching c = record {
  corr = c;
  es_open = true;
  log_open = true;
  stopping = false;
  armed = false;
  seen = [];
  logged = [];
  signals = [];
}
