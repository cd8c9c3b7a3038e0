-- ===== src/Correlate/Ledger/Conserved.antt =====
-- Over a whole run of internal/correlate/correlator.go no denial is counted twice, and none is lost
-- whose process was seen.
use buckle.Base.{ℕ, ◌+◌, ◌≤◌, true, List, [], ◌∷◌, ◌≡◌, refl, ap, subst, arith, is_some, nat_eq}
use buckle.Base.Map
use buckle.Exec.{ok, for_each}
use buckle.Exec.Outcome.{Ends, Ends-pure, Ends-Relates, Ends-bind}
use buckle.Correlate.Sink.{Sink}
use buckle.Correlate.State.{State, Config, Deps, new}
use buckle.Correlate.Calls.{Call, event, line, round, stopping, feed}
use buckle.Correlate.Frames.{handle_es-Relates}
use buckle.Correlate.Ledger.{Ledger}
use buckle.Correlate.Ledger.Calm.{Step-Steps}
use buckle.Correlate.Ledger.Waiting.{waiting, Sound, AllSeen, Moves}
use buckle.Correlate.Ledger.Balance.{Round, calm-Rounds}
use buckle.Correlate.Ledger.Turns.{tick-Ends, shutdown-Ends}
use buckle.Correlate.Ledger.Lines.{handle_denial-Ends}
use buckle.Correlate.Ledger.Arrivals.{line_count}

-- The denials that the calls bring.
abbrev pub brought : Call → ℕ
brought (line d now) = line_count d
brought _ = 0

abbrev pub all_brought : List Call → ℕ
all_brought [] = 0
all_brought (c ∷ cs) = brought c + all_brought cs

module _ {D : Type 0} (sink : Sink D) (deps : Deps) where
  -- Each line's process was seen when the line comes.
  abbrev pub SeenFirst : List Call → State D → Type 0
  SeenFirst [] s = Unit
  SeenFirst (line d now ∷ cs) s =
      (is_some (Map.lookup d.pid s.seen) ≡ true) × SeenFirst cs (feed sink deps (line d now) s).1
  SeenFirst (c ∷ cs) s = SeenFirst cs (feed sink deps c s).1

  -- What came over `cs` is counted, waits, or is among the `lost`.
  pub record Account (l : Ledger sink) (cs : List Call) (s t : State D) : Type 0 where
    pub lost : ℕ
    pub moves : Moves l.tally (all_brought cs) lost s t
    pub none_lost : AllSeen s → SeenFirst cs s → (lost ≡ 0) × AllSeen t

  from_Round :
      (l : Ledger sink) (c : Call) (s t : State D)
      → 0 ≡ all_brought (c ∷ [])
      → Round l.tally s t
      → Account l (c ∷ []) s t
  from_Round l c s t q r = record {
    lost = r.lost;
    moves = subst (λ n. Moves l.tally n r.lost s t) q r.moves;
    none_lost = λ a f. r.none_lost a;
  }

  one_call :
      (l : Ledger sink) (c : Call) (s t : State D) (u : Unit {0})
      → feed sink deps c s ≡ (ok u, t)
      → Sound l.tally s
      → Account l (c ∷ []) s t
  one_call l (event ev) s t u e h = from_Round l (event ev) s t refl (
      calm-Rounds l.tally s t
        ((Ends-Relates (handle_es-Relates sink deps (Step-Steps sink l) ev)).at s t u e) h)
  one_call l (line d now) s t u e h =
      let g = (handle_denial-Ends sink deps l d now).at s t u e h in
      record {
        lost = 0;
        moves = subst (λ n. Moves l.tally n 0 s t) (omega arith) g.moves;
        none_lost = λ a f. (refl, g.all_seen a f.0);
      }
  one_call l (round order now) s t u e h =
      from_Round l (round order now) s t refl ((tick-Ends sink deps l order now).at s t u e h)
  one_call l (stopping order) s t u e h =
      from_Round l (stopping order) s t refl ((shutdown-Ends sink deps l order).at s t u e h)

  first_then :
      (c : Call) (cs : List Call) (s : State D)
      → SeenFirst (c ∷ cs) s
      → SeenFirst (c ∷ []) s × SeenFirst cs (feed sink deps c s).1
  first_then (event ev) cs s h = (tt, h)
  first_then (line d now) cs s h = ((h.0, tt), h.1)
  first_then (round order now) cs s h = (tt, h)
  first_then (stopping order) cs s h = (tt, h)

  then-Account :
      (l : Ledger sink) (c : Call) (cs : List Call) (s t v : State D) (u : Unit {0})
      → feed sink deps c s ≡ (ok u, t)
      → Account l (c ∷ []) s t
      → Account l cs t v
      → Account l (c ∷ cs) s v
  then-Account l c cs s t v u e a b = record {
    lost = a.lost + b.lost;
    moves = record {
      total = omega (arith, a.moves.total, b.moves.total);
      sound = b.moves.sound;
      stays_seen = λ pid q. b.moves.stays_seen pid (a.moves.stays_seen pid q);
    };
    none_lost = λ seen f.
        let (here, later) = first_then c cs s f in
        let (x, seen') = a.none_lost seen here in
        let (y, seen'') = b.none_lost seen' (subst (SeenFirst cs) (ap (λ r. r.1) e) later) in
        (omega (arith, x, y), seen'');
  }

  -- Calls in a row, from any sound state.
  pub calls-Account :
      (l : Ledger sink) (cs : List Call)
      → Ends (λ s u t. Sound l.tally s → Account l cs s t) (for_each cs (feed sink deps))
  unfolding for_each
  calls-Account l [] =
      Ends-pure (λ s u t. Sound l.tally s → Account l [] s t) tt
        λ s h. record {
          lost = 0;
          moves = record { total = refl; sound = h; stays_seen = λ pid q. q };
          none_lost = λ a f. (refl, a);
        }
  calls-Account l (c ∷ cs) =
      Ends-bind (λ s u t. feed sink deps c s ≡ (ok u, t))
        (λ u t v w. Sound l.tally t → Account l cs t w)
        (λ s u t. Sound l.tally s → Account l (c ∷ cs) s t) (feed sink deps c)
        (λ u. for_each cs (feed sink deps)) (record { at = λ s t u e. e }) (λ u. calls-Account l cs)
        λ s t v u w e f h.
          let a = one_call l c s t u e h in then-Account l c cs s t v u e a (f a.moves.sound)

module _ {D : Type 0} (sink : Sink D) (deps : Deps) (l : Ledger sink) (cfg : Config) (db : D) where
  new-Sound : Sound l.tally (new cfg db)
  unfolding Map.lookup
  new-Sound = record {
    one_list = tt;
    leads = λ key ref e. cc;
    known = record { stored_there = λ key sd e. cc; orphans_there = λ key id e. cc };
  }

  new-AllSeen : AllSeen (new cfg db)
  unfolding Map.lookup
  new-AllSeen = record { seen_at = λ pid. tt }

  -- Over any calls of a new correlator that succeed, what the database counts and what waits is never
  -- more than the database counted before and the lines brought: no denial is counted twice. If each
  -- line's process was seen by an event when the line came, it is exactly that: none is lost, whether
  -- it is attributed, adopted, an orphan or still waits.
  pub calls-conserve :
      (cs : List Call) (u : Unit {0}) (t : State D)
      → for_each cs (feed sink deps) (new cfg db) ≡ (ok u, t)
      → (l.tally.counted t.db + waiting t.pending_by_pid ≤ l.tally.counted db + all_brought cs)
        × (SeenFirst sink deps cs (new cfg db)
            → l.tally.counted t.db + waiting t.pending_by_pid ≡ l.tally.counted db + all_brought cs)
  calls-conserve cs u t e =
      let a = (calls-Account sink deps l cs).at (new cfg db) t u e new-Sound in
      (
        omega (arith, a.moves.total),
        λ f. omega (arith, a.moves.total, (a.none_lost new-AllSeen f).0),
      )
