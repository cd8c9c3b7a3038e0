-- ===== src/ServerUi.antt =====
-- The pure helpers of internal/server/ui.go. A formatted span is a value with the numbers that the
-- text shows; Milliseconds and Truncate of a duration are divisions of natural numbers.
pub mod Argv
pub mod Timeline
use buckle.Base.{
  ℕ, ◌+◌, ◌-◌, ◌*◌, ◌/◌, ◌%◌, ◌≤◌, ◌<◌, not, ◌||◌, Bytes, codes, Option, none, some, ◌≡◌, arith,
  if◌then◌else◌, ltb, ◌==◌, nat_eq,
}
use buckle.Detect.{by_kind, display_name, detail_label}

abbrev pub denial_hot : ℕ
denial_hot = 20

-- `denialClass`
unfoldable pub denial_class : ℕ → Bytes
denial_class n =
    if not (ltb n denial_hot) then codes "hot" else if ltb 0 n then codes "warn" else codes ""

-- `agentName`
unfoldable pub agent_name : Bytes → Bytes
agent_name kind = elim (by_kind kind) [ none ↦ kind | some d ↦ display_name d ]

-- `detailLabel`
unfoldable pub label_of : Bytes → Bytes
label_of kind = elim (by_kind kind) [ none ↦ codes "Tag detail" | some d ↦ detail_label d ]

-- What `span` shows: "unknown", "12 ms", "1.2 s", "3m 04s" or "5h 06m".
pub data Span : Type 0 where
  unknown : Span
  millis : ℕ → Span
  tenths : ℕ → Span
  minutes : ℕ → ℕ → Span
  hours : ℕ → ℕ → Span

abbrev pub second : ℕ
second = 1_000_000_000

-- `int(d.Hours())`, `int(d.Minutes())` and `int(d.Seconds())` of a duration in nanoseconds: the
-- methods of package time give floating point numbers, so they are arguments.
pub record Durations : Type 0 where
  pub int_hours : ℕ → ℕ
  pub int_minutes : ℕ → ℕ
  pub int_seconds : ℕ → ℕ

-- the `switch` of `span`, on a duration in nanoseconds
unfoldable pub show_duration : Durations → ℕ → Span
show_duration time d =
    if ltb d second
    then millis (d / 1_000_000)
    else if ltb d (60 * second)
    then tenths (d / 100_000_000)
    else if ltb d (3600 * second)
    then minutes (time.int_minutes d) (time.int_seconds d % 60)
    else hours (time.int_hours d) (time.int_minutes d % 60)

-- `span`
unfoldable pub span : Durations → Option ℕ → Option ℕ → Span
unfolding show_duration
span time (some s) (some e) = if s == 0 || ltb e s then unknown else show_duration time (e - s)
span time _ _ = unknown

-- What a span says of a duration: the numbers are in their ranges, and the duration is at least
-- what they say and less than one more of the last unit.
abbrev pub Tells : Span → ℕ → Type 0
Tells unknown d = ⊥
Tells (millis n) d = (n < 1000) × (n * 1_000_000 ≤ d) × (d < (n + 1) * 1_000_000)
Tells (tenths n) d = (10 ≤ n) × (n < 600) × (n * 100_000_000 ≤ d) × (d < (n + 1) * 100_000_000)
Tells (minutes m n) d =
    (1 ≤ m) × (m < 60) × (n < 60) × ((60 * m + n) * second ≤ d) × (d < (60 * m + n + 1) * second)
Tells (hours h n) d =
    (1 ≤ h) × (n < 60) × ((60 * h + n) * (60 * second) ≤ d) × (d < (60 * h + n + 1) * (60 * second))

-- Below 4096 hours the fraction that a float64 keeps is finer than a nanosecond.
abbrev pub exact_below : ℕ
exact_below = 4096 * (3600 * second)

module _ (time : Durations)
    (hours_exact : (d : ℕ) → d < exact_below → time.int_hours d ≡ d / (3600 * second))
    (minutes_exact : (d : ℕ) → d < exact_below → time.int_minutes d ≡ d / (60 * second))
    (seconds_exact : (d : ℕ) → d < 3600 * second → time.int_seconds d ≡ d / second) where
  show_duration-Tells : (d : ℕ) → d < exact_below → Tells (show_duration time d) d
  unfolding show_duration
  show_duration-Tells d h = ground (arith, hours_exact d h, minutes_exact d h, seconds_exact d)

  shown : (s e : ℕ) → 1 ≤ s → s ≤ e → span time (some s) (some e) ≡ show_duration time (e - s)
  unfolding span
  shown s e h k = ground arith

  -- Between a start other than zero and an end that is no earlier and less than 4096 hours away,
  -- `span` shows numbers, each in its range, and they tell the time between the two to the last unit
  -- shown, when the methods of a duration are exact up to there, Seconds up to an hour.
  pub span-Tells :
      (s e : ℕ) → 1 ≤ s → s ≤ e → e - s < exact_below → Tells (span time (some s) (some e)) (e - s)
  span-Tells s e h k l = rw (shown s e h k) (show_duration-Tells (e - s) l)
