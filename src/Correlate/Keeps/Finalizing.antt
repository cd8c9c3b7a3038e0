-- ===== src/Correlate/Keeps/Finalizing.antt =====
-- `finalize` of internal/correlate/correlator.go, and candidate.go, undo nothing.
use buckle.Base.{
  ℕ, Bool, not, Option, none, some, refl, arith, if◌then◌else◌, nat_eq, bytes_eq, pair_eq, Bytes,
}
use buckle.Base.Map
use buckle.Exec.{Result, modify}
use buckle.Exec.Frame.{Relates, Relates-pure, Relates-bind, Relates-gets, Relates-if}
use buckle.Detect
use buckle.Detect.{Match, Detector}
use buckle.Correlate.Sink.{Sink}
use buckle.Correlate.State.{Deps, DenialKey, Pending, SeenInfo, key_of}
use buckle.Correlate.Keeps.{elsewhere-Keeps, Keeps, Keeps-IsPreorder, call-Keeps, Option-Keeps}
use buckle.Correlate.Images.{member_of, resolve}
use buckle.Correlate.Finalize.{
  classified, unseen_image, orphan_row, note_orphan, orphan_or_drop, drop_or_orphan,
  finalize_adopted, finalize_candidate, finalize_unclaimed, finalize,
}
use buckle.Correlate.Keeps.Joins.{register-Keeps, join-Keeps}
use buckle.Correlate.Keeps.Handlers.{Keeps-Steps}
use buckle.Correlate.Frames.{adopt-Relates, candidate_run-Relates}
use buckle.Correlate.Keeps.Attributions.{attribute-Keeps, forget_pending-Keeps}

module _ {D : Type 0} where
  note_orphan-Keeps :
      (key : DenialKey) (id : ℕ) → Relates Keeps (modify (note_orphan {D = D} key id))
  unfolding note_orphan
  note_orphan-Keeps key id = elsewhere-Keeps _ (λ s. refl) (λ s. refl) (λ s. ground arith)

module _ {D : Type 0} (sink : Sink D) (deps : Deps) where
  orphan_or_drop-Keeps :
      (p : Pending) (o : Option SeenInfo) → Relates Keeps (orphan_or_drop sink deps p o)
  unfolding orphan_or_drop
  orphan_or_drop-Keeps p none = Relates-pure Keeps-IsPreorder tt
  orphan_or_drop-Keeps p (some i) =
      Relates-bind Keeps-IsPreorder _ _ (Relates-gets Keeps-IsPreorder (λ s. orphan_row s p i))
        λ row.
          Relates-bind Keeps-IsPreorder _ _ (call-Keeps (sink.insert_orphan row))
            λ id. note_orphan-Keeps (key_of p.d) id

  drop_or_orphan-Keeps : (p : Pending) → Relates Keeps (drop_or_orphan sink deps p)
  unfolding drop_or_orphan
  drop_or_orphan-Keeps p =
      Relates-bind Keeps-IsPreorder _ _
        (Relates-gets Keeps-IsPreorder (λ s. Map.lookup p.d.pid s.seen))
        λ i. orphan_or_drop-Keeps p i

  finalize_adopted-Keeps :
      (p : Pending) (found : Option ℕ) (claim : Detector × Match)
      → Relates Keeps (finalize_adopted sink deps p found claim)
  unfolding finalize_adopted
  finalize_adopted-Keeps p found (det, m) =
      Relates-bind Keeps-IsPreorder _ _ (adopt-Relates sink deps (Keeps-Steps sink) det m p.d) λ r.
        Relates-bind Keeps-IsPreorder _ _
          (Option-Keeps _ _ (register-Keeps (unseen_image p.d.pid))
            (λ a. Relates-pure Keeps-IsPreorder a) found)
          λ a.
            Relates-bind Keeps-IsPreorder _ _ (join-Keeps sink a r)
              λ u. attribute-Keeps sink deps p a

  finalize_candidate-Keeps :
      (p : Pending) (a : ℕ) (check : Bytes → Bytes → Result Bool)
      → Relates Keeps (finalize_candidate sink deps p a check)
  unfolding finalize_candidate
  finalize_candidate-Keeps p a check =
      Relates-bind Keeps-IsPreorder _ _ (candidate_run-Relates sink deps (Keeps-Steps sink) check a)
        λ r. Option-Keeps _ _ (drop_or_orphan-Keeps p) (λ r'. attribute-Keeps sink deps p a) r

  unclaimed-Keeps :
      (p : Pending) (found : Option ℕ) (claim : Option (Detector × Match))
      (ents : Option (Bytes → Bytes → Result Bool))
      → Relates Keeps (classified sink deps p found claim ents)
  unfolding classified
  unclaimed-Keeps p found (some claim) ents = finalize_adopted-Keeps p found claim
  unclaimed-Keeps p none none ents = drop_or_orphan-Keeps p
  unclaimed-Keeps p (some a) none none = drop_or_orphan-Keeps p
  unclaimed-Keeps p (some a) none (some check) = finalize_candidate-Keeps p a check

  finalize_unclaimed-Keeps :
      (p : Pending) (classify : Bool) (found : Option ℕ)
      → Relates Keeps (finalize_unclaimed sink deps p classify found)
  unfolding finalize_unclaimed
  finalize_unclaimed-Keeps p classify found =
      Relates-if Keeps-IsPreorder (not classify) _ _ (drop_or_orphan-Keeps p)
        (unclaimed-Keeps p found (Detect.denial deps.decode p.d.message) deps.entitlements)

  pub finalize-Keeps :
      (p : Pending) (classify : Bool) → Relates Keeps (finalize sink deps p classify)
  unfolding finalize
  finalize-Keeps p classify = Relates-bind Keeps-IsPreorder _ _ (forget_pending-Keeps p) λ u.
      Relates-bind Keeps-IsPreorder _ _
        (Relates-gets Keeps-IsPreorder (λ s. resolve s p.d.pid p.d.time))
        λ found.
          Relates-bind Keeps-IsPreorder _ _ (Relates-gets Keeps-IsPreorder (λ s. member_of s found))
            λ member.
              Option-Keeps _ _ (finalize_unclaimed-Keeps p classify found)
                (λ a. attribute-Keeps sink deps p a) (if member then found else none)
