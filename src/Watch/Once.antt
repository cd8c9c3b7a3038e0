-- ===== src/Watch/Once.antt =====
-- The warner of internal/watch/watch.go says each thing once.
use buckle.Base.{
  Bool, ℕ, true, false, Bytes, List, Option, ◌≡◌, ◌≢◌, sym, subst, ◌∙◌, arith, All, All-imp, Unique,
  is_some, Bool-cases, inl, inr, bytes_eq, bytes_beq_iff,
}
use mathlib.Core.Bool.{false≢true}
use buckle.Base.Map
use buckle.EsLog.Parse.{Unmarshal}
use buckle.ULog.Parse.{RawLine}
use buckle.Watch.{Source, Input, Handlers, Watcher, once, loop, watching}
use buckle.Watch.Stable.{Stable, loop-keeps}

module _ {C : Type 0} where
  abbrev IsSeen : Watcher C → Bytes → Type 0
  IsSeen w k = is_some (Map.lookup k w.seen) ≡ true

  -- Every logged key is one that the warner has seen, and was logged once.
  abbrev LoggedOnce : Watcher C → Type 0
  LoggedOnce w = Unique w.logged × All (IsSeen w) w.logged

  seen_apart :
      (w : Watcher C) (key k : Bytes)
      → is_some (Map.lookup key w.seen) ≡ false
      → IsSeen w k
      → key ≢ k
  seen_apart w key k n s e = false≢true (sym n ∙ subst (λ x. IsSeen w x) (sym e) s)

  seen_stays :
      (w : Watcher C) (key k : Bytes)
      → IsSeen w k
      → is_some (Map.lookup k (Map.insert key true w.seen)) ≡ true
  seen_stays w key k s = ground (arith, Map.lookup-insert key k true w.seen, s)

  seen_self :
      (w : Watcher C) (key : Bytes) → is_some (Map.lookup key (Map.insert key true w.seen)) ≡ true
  seen_self w key = ground (arith, Map.lookup-insert key key true w.seen, bytes_beq_iff key key)

  once-LoggedOnce : (key : Bytes) (w : Watcher C) → LoggedOnce w → LoggedOnce (once key w)
  unfolding once
  once-LoggedOnce key w (u, s) = elim (Bool-cases (is_some (Map.lookup key w.seen))) [
    | inl e ↦ rw e (u, s)
    | inr e ↦ rw e (
      (All-imp _ _ (λ k q. seen_apart w key k e q) w.logged s, u),
      (seen_self w key, All-imp _ _ (seen_stays w key) w.logged s),
    )
  ]

  LoggedOnce-Stable : (h : Handlers C) → Stable h LoggedOnce
  LoggedOnce-Stable h = record {
    on_once = once-LoggedOnce;
    on_call = λ m w i k. k;
    on_flags = λ e l s a signals w k. k;
  }

-- However many lines come, the loop logs the warning of each key once at most.
pub loop-Unique :
    {C : Type 0} (h : Handlers C) (json : Unmarshal) (as_line : Bytes → Option RawLine)
    (as_time : Bytes → Option ℕ) (exits : Source → Bool) (is : List Input) (c : C)
    → Unique (loop h json as_line as_time exits is (watching c)).1.logged
unfolding watching
loop-Unique h json as_line as_time exits is c =
    (loop-keeps h LoggedOnce (LoggedOnce-Stable h) json as_line as_time exits is (watching c)
      (tt, tt)).0
