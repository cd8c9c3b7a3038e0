-- ===== src/Correlate/Keeps/Attributions.antt =====
-- `HandleDenial` and `finalize` of internal/correlate/correlator.go undo nothing.
use buckle.Base.{
  ℕ, ◌+◌, true, ◌&&◌, [], ◌∷◌, ◌++◌, Option, none, some, refl, arith, if◌then◌else◌, ltb, nat_eq,
  bytes_eq, pair_eq, codes,
}
use buckle.Base.Map
use buckle.Exec.{modify}
use buckle.Exec.Frame.{Relates, Relates-pure, Relates-raise, Relates-bind, Relates-gets, Relates-if}
use buckle.ULog.{Denial}
use buckle.Detect
use buckle.Detect.{Match, Detector}
use buckle.Correlate.Sink.{Sink}
use buckle.Correlate.State.{
  State, Deps, DenialKey, Pending, image, run_at, put_image, put_run, key_of,
}
use buckle.Correlate.Keeps.{
  Keeps, Keeps-IsPreorder, Keeps-elsewhere, put_image-Keeps, put_run-Keeps, modify-Keeps,
  call-Keeps, Option-Keeps,
}
use buckle.Correlate.Images.{caught_up, points_to}
use buckle.Correlate.Denials.{
  stored_elsewhere, forget_pending, note_stored, denial_row, attach_session, attribute_to,
  attribute, resolve_member, add_pending, new_denial, repeat_denial, handle_denial, stored_row_of,
  bump_waiting, stored_repeat, arriving,
}
use buckle.Correlate.Keeps.Joins.{if-Keeps}

module _ {D : Type 0} where
  denial_key-Keeps :
      (a : ℕ) (key : DenialKey) (s : State D)
      → Keeps s (put_image a (λ i. record i { denial_keys = i.denial_keys ++ key ∷ [] }) s)
  denial_key-Keeps a key s = put_image-Keeps a _ s (record {
    proc_same = refl;
    start_same = refl;
    links_same = (refl, refl);
    run_stays = λ r h. h;
    end_stays = λ t h. (h, refl, refl);
  })

  note_stored-Keeps :
      (key : DenialKey) (id a : ℕ) → Relates Keeps (modify (note_stored {D = D} key id a))
  unfolding note_stored
  note_stored-Keeps key id a = modify-Keeps _ λ s.
      Keeps-IsPreorder.rel_trans s _ _
        (if-Keeps (stored_elsewhere (Map.lookup key s.last_stored) a)
          (put_image a (λ i. record i { denial_keys = i.denial_keys ++ key ∷ [] })) s
          (denial_key-Keeps a key s))
        (Keeps-elsewhere _ _ refl refl (ground arith))

  pub forget_pending-Keeps : (p : Pending) → Relates Keeps (modify (forget_pending {D = D} p))
  unfolding forget_pending
  forget_pending-Keeps p = modify-Keeps _ λ s.
      if-Keeps (points_to (Map.lookup (key_of p.d) s.last_pending) p.ref)
        (λ t. record t { last_pending = Map.delete (key_of p.d) t.last_pending }) s
        (Keeps-elsewhere s _ refl refl (ground arith))

  session_mark-Keeps :
      (r : ℕ) → Relates Keeps (modify (put_run {D = D} r (λ x. record x { has_session = true })))
  session_mark-Keeps r = modify-Keeps _ λ s. put_run-Keeps r _ s (record {
    id_same = refl;
    kind_same = refl;
    session_stays = λ h. refl;
    stays_ended = λ h. h;
    last_end_grows = ground arith;
  })

module _ {D : Type 0} (sink : Sink D) (deps : Deps) where
  attach_session-Keeps :
      (r : ℕ) (d : Denial) (claim : Option (Detector × Match))
      → Relates Keeps (attach_session sink deps r d claim)
  unfolding attach_session
  attach_session-Keeps r d none = Relates-pure Keeps-IsPreorder tt
  attach_session-Keeps r d (some (det, m)) =
      Relates-bind Keeps-IsPreorder _ _
        (call-Keeps (sink.ensure_session (Detect.kind det) m.key d.time))
        λ sid.
          Relates-bind Keeps-IsPreorder _ _ (Relates-gets Keeps-IsPreorder (λ s. run_at s r)) λ run.
            Relates-bind Keeps-IsPreorder _ _
              (call-Keeps (sink.set_run_session run.id sid m.raw m.detail))
              λ u. session_mark-Keeps r

  attribute_to-Keeps : (p : Pending) (a r : ℕ) → Relates Keeps (attribute_to sink deps p a r)
  unfolding attribute_to
  attribute_to-Keeps p a r =
      Relates-bind Keeps-IsPreorder _ _ (Relates-gets Keeps-IsPreorder (λ s. denial_row s p a r))
        λ row. Relates-bind Keeps-IsPreorder _ _ (call-Keeps (sink.insert_denial row)) λ id.
          Relates-bind Keeps-IsPreorder _ _ (note_stored-Keeps (key_of p.d) id a) λ u.
            Relates-bind Keeps-IsPreorder _ _ (forget_pending-Keeps p) λ u'.
              Relates-bind Keeps-IsPreorder _ _ (Relates-gets Keeps-IsPreorder (λ s. run_at s r))
                λ run.
                  Relates-if Keeps-IsPreorder run.has_session _ _ (Relates-pure Keeps-IsPreorder tt)
                    (attach_session-Keeps r p.d (Detect.denial deps.decode p.d.message))

  pub attribute-Keeps : (p : Pending) (a : ℕ) → Relates Keeps (attribute sink deps p a)
  unfolding attribute
  attribute-Keeps p a =
      Relates-bind Keeps-IsPreorder _ _ (Relates-gets Keeps-IsPreorder (λ s. image s a)) λ img.
        Option-Keeps _ _ (Relates-raise Keeps-IsPreorder (codes "nil pointer dereference"))
          (λ r. attribute_to-Keeps p a r) img.run

  resolve_member-Keeps : (d : Denial) → Relates Keeps (resolve_member sink deps d)
  unfolding resolve_member
  resolve_member-Keeps d = record { at = Keeps-IsPreorder.rel_refl }

  add_pending-Keeps : (p : Pending) → Relates Keeps (modify (add_pending sink deps p))
  unfolding add_pending
  add_pending-Keeps p = modify-Keeps _ λ s. Keeps-elsewhere s _ refl refl (ground arith)

  new_denial-Keeps : (d : Denial) (count now : ℕ) → Relates Keeps (new_denial sink deps d count now)
  unfolding new_denial
  new_denial-Keeps d count now =
      Relates-bind Keeps-IsPreorder _ _ (Relates-gets Keeps-IsPreorder (λ s. s.next_ref)) λ ref.
        Relates-bind Keeps-IsPreorder _ _
          (modify-Keeps (λ s. record s { next_ref = s.next_ref + 1 })
            (λ s. Keeps-elsewhere s _ refl refl (ground arith)))
          λ u.
            Relates-bind Keeps-IsPreorder _ _
              (Relates-gets Keeps-IsPreorder (λ s. caught_up s d.time))
              λ caught. Relates-bind Keeps-IsPreorder _ _ (resolve_member-Keeps d) λ m.
                Option-Keeps _ _ (add_pending-Keeps (arriving d count now ref))
                  (λ a. attribute-Keeps (arriving d count now ref) a)
                  (if caught && m.1 then m.0 else none)

  stored_row-Keeps :
      (d : Denial) (now : ℕ) (orphan stored : Option ℕ)
      → Relates Keeps (stored_repeat sink deps d now stored orphan)
  unfolding stored_repeat
  stored_row-Keeps d now orphan (some id) = call-Keeps (sink.add_denial_count id d.duplicate)
  stored_row-Keeps d now (some id) none = call-Keeps (sink.add_orphan_count id d.duplicate)
  stored_row-Keeps d now none none = new_denial-Keeps d d.duplicate now

  repeat_denial-Keeps : (d : Denial) (now : ℕ) → Relates Keeps (repeat_denial sink deps d now)
  unfolding repeat_denial bump_waiting
  repeat_denial-Keeps d now =
      Relates-bind Keeps-IsPreorder _ _
        (Relates-gets Keeps-IsPreorder (λ s. Map.lookup (key_of d) s.last_pending))
        λ waiting.
          Relates-bind Keeps-IsPreorder _ _
            (Relates-gets Keeps-IsPreorder (λ s. stored_row_of s (key_of d)))
            λ stored.
              Relates-bind Keeps-IsPreorder _ _
                (Relates-gets Keeps-IsPreorder (λ s. Map.lookup (key_of d) s.last_orphan))
                λ orphan.
                  Option-Keeps _ _ (stored_row-Keeps d now orphan stored)
                    (λ ref.
                      modify-Keeps (bump_waiting d ref)
                        (λ s. Keeps-elsewhere s _ refl refl (ground arith)))
                    waiting

  -- Whether it fails or not, a denial undoes nothing of what the correlator knows of images, runs
  -- and time.
  pub handle_denial-Keeps :
      (d : Denial) (now : ℕ) (s : State D) → Keeps s (handle_denial sink deps d now s).1
  unfolding handle_denial
  handle_denial-Keeps d now s =
      (Relates-if Keeps-IsPreorder (ltb 0 d.duplicate) _ _ (repeat_denial-Keeps d now)
          (new_denial-Keeps d d.deny_n now)).at
        s
