-- ===== src/ServerUi/Timeline/Sorted.antt =====
-- The order of the timeline in internal/server/ui.go.
use buckle.Base.{
  true, false, Bytes, List, [], ◌∷◌, ◌++◌, Option, none, some, ◌≡◌, refl, arith, All, All-imp,
  Bool-cases, inl, inr, map,
}
use buckle.Base.Int.{ℤ, ◌≤ℤ◌}
use mathlib.Core.List.{Perm}
use mathlib.Core.List.Perm
use buckle.ServerUi.Timeline.{
  Process, Denial, Entry, earlier, insert_entry, sort_entries, denial_entry, all_process_entries,
  timeline,
}

-- No entry comes behind one that it is earlier than.
abbrev InOrder : List Entry → Type 0
InOrder [] = Unit
InOrder (e ∷ es) = All (λ f. earlier f e ≡ false) es × InOrder es

earlier_apart :
    (a b c : Option ℤ) (e f g : Entry)
    → e.at ≡ a
    → f.at ≡ b
    → g.at ≡ c
    → earlier g f ≡ false
    → earlier f e ≡ false
    → earlier g e ≡ false
unfolding earlier
earlier_apart a b c e f g p q r h k = ground arith

earlier_once : (e f : Entry) → earlier f e ≡ true → earlier e f ≡ false
unfolding earlier
earlier_once e f h = ground arith

All-insert_entry :
    (P : Entry → Type 0) (e : Entry) (es : List Entry) → P e → All P es → All P (insert_entry e es)
unfolding insert_entry
All-insert_entry P e [] p h = (p, tt)
All-insert_entry P e (f ∷ fs) p h = elim (Bool-cases (earlier f e)) [
  | inl q ↦ rw q (h.0, All-insert_entry P e fs p h.1)
  | inr q ↦ rw q (p, h)
]

insert_entry-InOrder : (e : Entry) (es : List Entry) → InOrder es → InOrder (insert_entry e es)
unfolding insert_entry
insert_entry-InOrder e [] h = (tt, tt)
insert_entry-InOrder e (f ∷ fs) h = elim (Bool-cases (earlier f e)) [
  | inl q ↦ rw q (
    All-insert_entry (λ x. earlier x f ≡ false) e fs (earlier_once e f q) h.0,
    insert_entry-InOrder e fs h.1,
  )
  | inr q ↦
      rw q
        ((q, All-imp _ _ (λ g k. earlier_apart e.at f.at g.at e f g refl refl refl k q) fs h.0), h)
]

sort_entries-InOrder : (es : List Entry) → InOrder (sort_entries es)
unfolding sort_entries
sort_entries-InOrder [] = tt
sort_entries-InOrder (e ∷ es) = insert_entry-InOrder e (sort_entries es) (sort_entries-InOrder es)

insert_entry-perm : (e : Entry) (es : List Entry) → Perm (insert_entry e es) (e ∷ es)
unfolding insert_entry
insert_entry-perm e [] = Perm.refl _
insert_entry-perm e (f ∷ fs) = elim (Bool-cases (earlier f e)) [
  | inl q ↦ rw q (Perm.trans (Perm.cons f (insert_entry-perm e fs)) (Perm.swap e f fs))
  | inr q ↦ rw q (Perm.refl _)
]

sort_entries-perm : (es : List Entry) → Perm (sort_entries es) es
unfolding sort_entries
sort_entries-perm [] = Perm.refl []
sort_entries-perm (e ∷ es) =
    Perm.trans (insert_entry-perm e (sort_entries es)) (Perm.cons e (sort_entries-perm es))

-- Two times stand in order: neither is missing in front of one, and the later does not come first.
abbrev pub NoLater : Option ℤ → Option ℤ → Type 0
NoLater none none = Unit
NoLater none (some t) = ⊥
NoLater (some s) none = Unit
NoLater (some s) (some t) = s ≤ℤ t

-- Each entry's time stands in order with those behind it.
abbrev pub ByTime : List Entry → Type 0
ByTime [] = Unit
ByTime (e ∷ es) = All (λ f. NoLater e.at f.at) es × ByTime es

not_earlier :
    (a b : Option ℤ) (e f : Entry) → e.at ≡ a → f.at ≡ b → earlier f e ≡ false → NoLater a b
unfolding earlier
not_earlier none none e f p q h = tt
not_earlier none (some t) e f p q h = ground arith
not_earlier (some s) none e f p q h = tt
not_earlier (some s) (some t) e f p q h = ground arith

InOrder-ByTime : (es : List Entry) → InOrder es → ByTime es
InOrder-ByTime [] h = tt
InOrder-ByTime (e ∷ es) h =
    (All-imp _ _ (λ f k. not_earlier e.at f.at e f refl refl k) es h.0, InOrder-ByTime es h.1)

-- The timeline holds the entries of every process and every denial once, by time: no entry stands
-- behind one with a later time, and those without a time come last.
pub timeline-InOrder :
    (strings : Bytes → Option (List Bytes)) (ps : List Process) (ds : List Denial)
    → ByTime (timeline strings ps ds)
      × Perm
          (timeline strings ps ds)
          (all_process_entries strings ps ++ map (λ d. denial_entry d) ds)
unfolding timeline
timeline-InOrder strings ps ds =
    let es = all_process_entries strings ps ++ map (λ d. denial_entry d) ds in
    (InOrder-ByTime _ (sort_entries-InOrder es), sort_entries-perm es)
