-- ===== src/Correlate/Ledger/Forgets.antt =====
-- What internal/correlate/correlator.go forgets and notes of a denial that it settles.
use buckle.Base.{
  ℕ, Bool, true, false, [], ◌∷◌, ◌++◌, some, ◌≡◌, ◌≢◌, refl, sym, ap, ◌∙◌, subst, arith,
  if◌then◌else◌, is_some, nat_eq, bytes_eq, pair_eq, beq_self, inl, inr,
}
use mathlib.Core.Bool.{false≢true}
use buckle.Base.Map
use buckle.Correlate.State.{State, DenialKey, Pending, put_image, key_of}
use buckle.Correlate.Images.{points_to}
use buckle.Correlate.Denials.{forget_pending, note_stored}
use buckle.Correlate.Finalize.{note_orphan}
use buckle.Correlate.Ledger.{Tally, Step, Step-refl, Step-trans, Step-elsewhere}

-- `lastPending` does not lead to the pending.
abbrev pub Forgotten : {D : Type 0} → Pending → State D → Type 0
Forgotten p s = Map.lookup (key_of p.d) s.last_pending ≢ some p.ref

-- The denials of `p` are counted, or lost, which they are not if its process was ever seen.
pub record Counts {D : Type 0} (tally : Tally D) (p : Pending) (s t : State D) : Type 0 where
  pub lost : ℕ
  pub step : Step tally p.count lost s t
  pub none_lost : is_some (Map.lookup p.d.pid s.seen) ≡ true → lost ≡ 0

module _ {D : Type 0} (tally : Tally D) where
  drop_pending-Step :
      (p : Pending) (s : State D) (b : Bool)
      → points_to (Map.lookup (key_of p.d) s.last_pending) p.ref ≡ b
      → let t =
          (if b then record s { last_pending = Map.delete (key_of p.d) s.last_pending } else s) in
        Step tally 0 0 s t × Forgotten p t
  drop_pending-Step p s true h = (
    record {
      waiting_same = refl;
      last_shrinks = λ k ref e. Map.lookup-delete-some (key_of p.d) k ref s.last_pending e;
      adds = refl;
      stays_known = λ k. record { stored_there = k.stored_there; orphans_there = k.orphans_there };
      stays_seen = λ pid e. e;
    },
    λ e. ground (
      arith,
      e,
      Map.lookup-delete (key_of p.d) (key_of p.d) s.last_pending,
      beq_self (key_of p.d),
    ),
  )
  drop_pending-Step p s false h =
      (Step-refl tally s, λ e. false≢true (sym h ∙ ap (λ o. points_to o p.ref) e ∙ beq_self p.ref))

  pub forget_pending-Step :
      (p : Pending) (s : State D)
      → Step tally 0 0 s (forget_pending p s) × Forgotten p (forget_pending p s)
  unfolding forget_pending
  forget_pending-Step p s = drop_pending-Step p s _ refl

  put_key-Step :
      (key : DenialKey) (a : ℕ) (b : Bool) (s : State D)
      → Step tally 0 0 s (
          if b
          then put_image a (λ i. record i { denial_keys = i.denial_keys ++ key ∷ [] }) s
          else s)
  unfolding put_image
  put_key-Step key a true s = Step-elsewhere tally _ _ refl refl refl refl refl refl
  put_key-Step key a false s = Step-refl tally s

  put_key-db :
      (key : DenialKey) (a : ℕ) (b : Bool) (s : State D)
      → (if b
          then put_image a (λ i. record i { denial_keys = i.denial_keys ++ key ∷ [] }) s
          else s).db
        ≡ s.db
  unfolding put_image
  put_key-db key a true s = refl
  put_key-db key a false s = refl

  store_key-Step :
      (key : DenialKey) (id a : ℕ) (s : State D)
      → tally.has_denial id s.db ≡ true
      → Step tally 0 0 s
          (record s { last_stored = Map.insert key (record { id = id; img = a }) s.last_stored })
  store_key-Step key id a s h = record {
    waiting_same = refl;
    last_shrinks = λ k ref e. e;
    adds = refl;
    stays_known = λ k. record {
      stored_there = λ j sd e.
          elim (Map.lookup-insert-some key j (record { id = id; img = a }) sd s.last_stored e) [
            | inl q ↦ subst (λ x. tally.has_denial x.id s.db ≡ true) q.1 h
            | inr q ↦ k.stored_there j sd q
          ];
      orphans_there = k.orphans_there;
    };
    stays_seen = λ pid e. e;
  }

  pub note_orphan-Step :
      (key : DenialKey) (id : ℕ) (s : State D)
      → tally.has_orphan id s.db ≡ true
      → Step tally 0 0 s (note_orphan key id s)
  unfolding note_orphan
  note_orphan-Step key id s h = record {
    waiting_same = refl;
    last_shrinks = λ k ref e. e;
    adds = refl;
    stays_known = λ k. record {
      stored_there = k.stored_there;
      orphans_there = λ j i e. elim (Map.lookup-insert-some key j id i s.last_orphan e) [
        | inl q ↦ subst (λ x. tally.has_orphan x s.db ≡ true) q.1 h
        | inr q ↦ k.orphans_there j i q
      ];
    };
    stays_seen = λ pid e. e;
  }

  -- Counting under a key of the image, then forgetting what waited.
  pub note_stored-Step :
      (key : DenialKey) (id a : ℕ) (s : State D)
      → tally.has_denial id s.db ≡ true
      → Step tally 0 0 s (note_stored key id a s)
  unfolding note_stored
  note_stored-Step key id a s h =
      Step-trans tally 0 0 0 0 s _ _ (put_key-Step key a _ s)
        (store_key-Step key id a _ (ap (tally.has_denial id) (put_key-db key a _ s) ∙ h))
