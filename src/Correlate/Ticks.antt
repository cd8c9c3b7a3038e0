-- ===== src/Correlate/Ticks.antt =====
-- `Tick`, `evict` and `Shutdown` of internal/correlate/correlator.go. A range over a Go map visits
-- the keys in no fixed order: that order is an argument.
use buckle.Base.{
  ℕ, zero, suc, ◌+◌, ◌*◌, Bool, true, false, ◌&&◌, List, [], ◌∷◌, ◌++◌, Option, none, some, length,
  if◌then◌else◌, ltb, leb, ◌==◌, nat_eq, bytes_eq, pair_eq, is_empty, drop,
}
use buckle.Base.Map
use buckle.Base.Map.{Map}
use buckle.Exec.{Exec, ok, err, pure, gets, modify, ◌>>=◌, ◌>>◌, for_each}
use buckle.EsLog.{Token}
use buckle.Rows.{by_watch_stopped, watch_stopped}
use buckle.Correlate.Sink.{Sink}
use buckle.Correlate.State.{
  State, Image, Pending, StoredDenial, DenialKey, Deps, eslogger_behind, image, run_at, pendings,
  put_run, call, min_retention, lag_cap_factor,
}
use buckle.Correlate.Images.{member_of, resolve, caught_up, drop_live}
use buckle.Correlate.Denials.{attribute}
use buckle.Correlate.Finalize.{finalize}

-- When the sink fails, `kept := list[:0]` has already written the pendings kept so far over the
-- front of the list that the map still holds.
abbrev pub overwritten : List Pending → List Pending → List Pending
overwritten kept list = kept ++ drop (length kept) list

-- An image that `evict` lets go: ended before the cutoff, `now` less the retention.
abbrev pub is_old : Image → ℕ → ℕ → Bool
is_old img retention now = elim img.ended_at [ none ↦ false | some t ↦ ltb (t + retention) now ]

-- `c.lastStored[k].img == img`
abbrev pub stored_at : Option StoredDenial → ℕ → Bool
stored_at none a = false
stored_at (some sd) a = sd.img == a

-- `delete(c.lastStored, k)` for the keys of an image that still point to it
unfoldable pub forget_stored :
    ℕ → List DenialKey → Map DenialKey StoredDenial → Map DenialKey StoredDenial
forget_stored a [] m = m
forget_stored a (k ∷ ks) m =
    forget_stored a ks (if stored_at (Map.lookup k m) a then Map.delete k m else m)

abbrev pub all_images : Map ℕ (List ℕ) → List ℕ
all_images [] = []
all_images ((pid, l) ∷ m) = l ++ all_images m

-- The indices from `i`, `n` of them.
abbrev pub range : ℕ → ℕ → List ℕ
range i zero = []
range i (suc n) = i ∷ range (i + 1) n

module _ {D : Type 0} where
  -- `setPending`
  unfoldable pub set_pending : ℕ → List Pending → State D → State D
  set_pending pid [] s = record s { pending_by_pid = Map.delete pid s.pending_by_pid }
  set_pending pid (p ∷ ps) s = record s {
    pending_by_pid = Map.insert pid (p ∷ ps) s.pending_by_pid;
  }

  -- the loops of `evict`
  unfoldable pub keep_young : State D → ℕ → ℕ → List ℕ → List ℕ
  unfolding image
  keep_young s retention now [] = []
  keep_young s retention now (a ∷ l) =
      let rest = keep_young s retention now l in
      if is_old (image s a) retention now then rest else a ∷ rest

  unfoldable pub young_tokens : State D → ℕ → ℕ → Map Token ℕ → Map Token ℕ
  unfolding image
  young_tokens s retention now [] = []
  young_tokens s retention now ((tok, a) ∷ m) =
      let rest = young_tokens s retention now m in
      if is_old (image s a) retention now then rest else (tok, a) ∷ rest

  unfoldable pub young_pids : State D → ℕ → ℕ → Map ℕ (List ℕ) → Map ℕ (List ℕ)
  unfolding keep_young
  young_pids s retention now [] = []
  young_pids s retention now ((pid, l) ∷ m) =
      let kept = keep_young s retention now l in
      let rest = young_pids s retention now m in if is_empty kept then rest else (pid, kept) ∷ rest

  unfoldable pub forget_old :
      State D → ℕ → ℕ → List ℕ → Map DenialKey StoredDenial → Map DenialKey StoredDenial
  unfolding image forget_stored
  forget_old s retention now [] m = m
  forget_old s retention now (a ∷ l) m =
      forget_old s retention now l
        (if is_old (image s a) retention now then forget_stored a (image s a).denial_keys m else m)

  -- `evict`
  unfoldable pub evict : ℕ → State D → State D
  unfolding young_tokens young_pids forget_old
  evict now s =
      let wide = 3 * s.cfg.buffer in
      let retention = if ltb min_retention wide then wide else min_retention in
      record s {
        by_token = young_tokens s retention now s.by_token;
        by_pid = young_pids s retention now s.by_pid;
        last_stored = forget_old s retention now (all_images s.by_pid) s.last_stored;
      }

module _ {D : Type 0} (sink : Sink D) (deps : Deps) where
  -- the end of a `Tick`'s work on one pending denial that is not due: it is attributed if a run
  -- claims it by now, and kept otherwise
  unfoldable pub attribute_or_keep : Pending → Option ℕ → Exec (State D) Bool
  unfolding ◌>>=◌ attribute
  attribute_or_keep p none = pure true
  attribute_or_keep p (some a) = do attribute sink deps p a; pure false

  -- What `Tick` does with one pending denial: `true` keeps it.
  unfoldable pub tick_one : ℕ → Pending → Exec (State D) Bool
  unfolding caught_up resolve finalize attribute_or_keep
  tick_one now p = do
    caught ← gets (λ s. caught_up s p.d.time)
    buffer ← gets (λ s. s.cfg.buffer)
    if caught && leb (p.arrived + buffer) now
        then (do finalize sink deps p true; pure false)
        else if leb (p.arrived + lag_cap_factor * buffer) now
        then (do
          modify (λ s. record s { warnings = s.warnings ++ eslogger_behind ∷ [] })
          finalize sink deps p false
          pure false)
        else (do
          found ← gets (λ s. resolve s p.d.pid p.d.time)
          member ← gets (λ s. member_of s found)
          attribute_or_keep p (if caught && member then found else none))

  -- The loop of `Tick` over one pid's list, which is `list` at its start.
  unfoldable pub tick_list :
      ℕ → ℕ → List Pending → List Pending → List Pending → Exec (State D) (Unit {0})
  unfolding ◌>>=◌ tick_one set_pending
  tick_list pid now list kept [] s = (ok tt, set_pending pid kept s)
  tick_list pid now list kept (p ∷ rest) s =
      let (r, t) = tick_one now p s in
      elim r [
        | ok keep ↦ tick_list pid now list (if keep then kept ++ p ∷ [] else kept) rest t
        | err e ↦ (err e, set_pending pid (overwritten kept list) t)
      ]

  unfoldable pub tick_pid : ℕ → ℕ → Exec (State D) (Unit {0})
  unfolding tick_list pendings
  tick_pid now pid = do list ← gets (λ s. pendings s pid); tick_list pid now list [] list

  -- `Tick`
  unfoldable pub tick : List ℕ → ℕ → Exec (State D) (Unit {0})
  unfolding for_each tick_pid evict
  tick order now = do for_each order (tick_pid now); modify (evict now)

  -- the loop of `Shutdown` over the pendings
  unfoldable pub shutdown_pid : ℕ → Exec (State D) (Unit {0})
  unfolding for_each pendings finalize
  shutdown_pid pid = do
    list ← gets (λ s. pendings s pid)
    for_each list (λ p. finalize sink deps p true)
    modify (λ s. record s { pending_by_pid = Map.delete pid s.pending_by_pid })

  -- the loop of `Shutdown` over a run's live images
  unfoldable pub stop_live : ℕ → ℕ → Exec (State D) (Unit {0})
  unfolding ◌>>=◌ call put_run
  stop_live r a = do
    img ← gets (λ s. image s a)
    call (sink.end_process img.row_id none by_watch_stopped none)
    modify (put_run r (drop_live a))

  unfoldable pub stop_run : ℕ → Exec (State D) (Unit {0})
  unfolding for_each stop_live
  stop_run r = do
    run ← gets (λ s. run_at s r)
    for_each run.live (stop_live r)
    if run.ended then pure tt else (do
      modify (put_run r (λ x. record x { ended = true }))
      call (sink.end_run run.id none watch_stopped))

  -- `Shutdown`
  unfoldable pub shutdown : List ℕ → Exec (State D) (Unit {0})
  unfolding for_each shutdown_pid stop_run
  shutdown order = do
    for_each order shutdown_pid
    count ← gets (λ s. length s.runs)
    for_each (range 0 count) stop_run
