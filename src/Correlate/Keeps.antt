-- ===== src/Correlate/Keeps.antt =====
-- What internal/correlate/correlator.go never undoes: an image keeps its process, its run and its
-- end, a run keeps its row, kind and session and stays ended, and the watermark never falls.
pub mod Joins
pub mod Handlers
pub mod Attributions
pub mod Finalizing
pub mod Rounds
pub mod Always
use buckle.Base.{
  ℕ, ◌≤◌, Bool, true, false, List, [], ◌∷◌, ◌++◌, Option, none, some, ◌≡◌, refl, sym, ap, ◌∙◌,
  arith, set, Bool-cases, Option-cases, inl, inr, or_else, if◌then◌else◌,
}
use buckle.Base.Kept.{Kept, Kept-refl, Kept-trans, Kept-append, Kept-set}
use buckle.Exec.{Result, ok, err, Exec, pure, raise, gets, modify, ◌>>=◌}
use buckle.Exec.Frame.{IsPreorder, Relates, Relates-pure, Relates-bind}
use buckle.EsLog.{Proc}
use buckle.Rows.{RunKind, EndReason}
use buckle.Correlate.State.{
  State, Image, RunState, image, run_at, put_image, put_run, call, zero_image, zero_run,
}

-- The later image `j` is still the image `i`.
pub record SameImage (i j : Image) : Type 0 where
  pub proc_same : j.proc ≡ i.proc
  pub start_same : j.start ≡ i.start
  pub links_same : (j.parent ≡ i.parent) × (j.prev ≡ i.prev)
  pub run_stays : (r : ℕ) → i.run ≡ some r → j.run ≡ some r
  pub end_stays :
      (t : ℕ)
      → i.ended_at ≡ some t
      → (j.ended_at ≡ some t) × (j.end_reason ≡ i.end_reason) × (j.exit_status ≡ i.exit_status)

-- The later run `y` is still the run `x`.
pub record SameRun (x y : RunState) : Type 0 where
  pub id_same : y.id ≡ x.id
  pub kind_same : y.kind ≡ x.kind
  pub session_stays : x.has_session ≡ true → y.has_session ≡ true
  pub stays_ended : x.ended ≡ true → y.ended ≡ true
  pub last_end_grows : x.last_end ≤ y.last_end

pub SameImage-refl : (i : Image) → SameImage i i
SameImage-refl i = record {
  proc_same = refl;
  start_same = refl;
  links_same = (refl, refl);
  run_stays = λ r h. h;
  end_stays = λ t h. (h, refl, refl);
}

SameImage-trans : (i j k : Image) → SameImage i j → SameImage j k → SameImage i k
SameImage-trans i j k a b = record {
  proc_same = b.proc_same ∙ a.proc_same;
  start_same = b.start_same ∙ a.start_same;
  links_same = (b.links_same.0 ∙ a.links_same.0, b.links_same.1 ∙ a.links_same.1);
  run_stays = λ r h. b.run_stays r (a.run_stays r h);
  end_stays = λ t h.
      let (e, r, x) = a.end_stays t h in let (e', r', x') = b.end_stays t e in (e', r' ∙ r, x' ∙ x);
}

pub SameRun-refl : (x : RunState) → SameRun x x
SameRun-refl x = record {
  id_same = refl;
  kind_same = refl;
  session_stays = λ h. h;
  stays_ended = λ h. h;
  last_end_grows = ground arith;
}

SameRun-trans : (x y z : RunState) → SameRun x y → SameRun y z → SameRun x z
SameRun-trans x y z a b = record {
  id_same = b.id_same ∙ a.id_same;
  kind_same = b.kind_same ∙ a.kind_same;
  session_stays = λ h. b.session_stays (a.session_stays h);
  stays_ended = λ h. b.stays_ended (a.stays_ended h);
  last_end_grows = let p = a.last_end_grows in let q = b.last_end_grows in ground arith;
}

-- The state `t` keeps what the state `s` holds.
pub record Keeps {D : Type 0} (s t : State D) : Type 0 where
  pub images_stay : Kept SameImage s.images t.images
  pub runs_stay : Kept SameRun s.runs t.runs
  pub watermark_grows : s.watermark ≤ t.watermark

module _ {D : Type 0} where
  pub Keeps-IsPreorder : IsPreorder (Keeps {D = D})
  Keeps-IsPreorder = record {
    rel_refl = λ s. record {
      images_stay = Kept-refl SameImage SameImage-refl s.images;
      runs_stay = Kept-refl SameRun SameRun-refl s.runs;
      watermark_grows = ground arith;
    };
    rel_trans = λ s t u a b. record {
      images_stay =
          Kept-trans SameImage SameImage-trans s.images t.images u.images a.images_stay
            b.images_stay;
      runs_stay = Kept-trans SameRun SameRun-trans s.runs t.runs u.runs a.runs_stay b.runs_stay;
      watermark_grows = let p = a.watermark_grows in let q = b.watermark_grows in ground arith;
    };
  }

  -- A step on none of the three.
  pub Keeps-elsewhere :
      (s t : State D)
      → t.images ≡ s.images
      → t.runs ≡ s.runs
      → s.watermark ≤ t.watermark
      → Keeps s t
  Keeps-elsewhere s t i r w = record {
    images_stay = rw i (Kept-refl SameImage SameImage-refl s.images);
    runs_stay = rw r (Kept-refl SameRun SameRun-refl s.runs);
    watermark_grows = w;
  }

  pub put_image-Keeps :
      (a : ℕ) (f : Image → Image) (s : State D)
      → SameImage (image s a) (f (image s a))
      → Keeps s (put_image a f s)
  unfolding put_image image
  put_image-Keeps a f s h = record {
    images_stay = Kept-set SameImage SameImage-refl s.images a _ zero_image h;
    runs_stay = Kept-refl SameRun SameRun-refl s.runs;
    watermark_grows = ground arith;
  }

  pub put_run-Keeps :
      (r : ℕ) (f : RunState → RunState) (s : State D)
      → SameRun (run_at s r) (f (run_at s r))
      → Keeps s (put_run r f s)
  unfolding put_run run_at
  put_run-Keeps r f s h = record {
    images_stay = Kept-refl SameImage SameImage-refl s.images;
    runs_stay = Kept-set SameRun SameRun-refl s.runs r _ zero_run h;
    watermark_grows = ground arith;
  }

  pub modify-Keeps :
      (f : State D → State D) → ((s : State D) → Keeps s (f s)) → Relates Keeps (modify f)
  unfolding modify
  modify-Keeps f h = record { at = h }

  pub elsewhere-Keeps :
      (f : State D → State D)
      → ((s : State D) → (f s).images ≡ s.images)
      → ((s : State D) → (f s).runs ≡ s.runs)
      → ((s : State D) → s.watermark ≤ (f s).watermark)
      → Relates Keeps (modify f)
  elsewhere-Keeps f i r w = modify-Keeps f λ s. Keeps-elsewhere s (f s) (i s) (r s) (w s)

  pub call-Keeps {ℓ} : {A : Type ℓ} → (m : Exec D A) → Relates Keeps (call m)
  unfolding call
  call-Keeps m = record { at = λ s. Keeps-elsewhere s _ refl refl (ground arith) }

  -- A read, then what the read decides.
  pub gets-Keeps {ℓ κ} :
      {A : Type ℓ} {B : Type κ}
      → (g : State D → A) (f : A → Exec (State D) B) → ((s : State D) → Keeps s (f (g s) s).1)
      → Relates Keeps (gets g >>= f)
  unfolding ◌>>=◌
  gets-Keeps g f h = record { at = h }

  pub Option-Keeps {ℓ κ} :
      {A : Type ℓ} {B : Type κ}
      → (n : Exec (State D) B) (f : A → Exec (State D) B) → Relates Keeps n
      → ((a : A) → Relates Keeps (f a))
      → (o : Option A) → Relates Keeps (elim o [ none ↦ n | some a ↦ f a ])
  Option-Keeps n f hn hf none = hn
  Option-Keeps n f hn hf (some a) = hf a
