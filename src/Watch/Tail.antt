-- ===== src/Watch/Tail.antt =====
-- `tail` of internal/watch/source.go: the end of what a process wrote on its standard error.
use buckle.Base.{
  ℕ, zero, suc, ◌+◌, ◌-◌, ◌≤◌, inl, inr, ◌||◌, Bytes, List, [], ◌∷◌, ◌++◌, ◌≡◌, refl, sym, ap,
  subst, ◌∙◌, arith, length, length-append, drop, ltb, if◌then◌else◌, nat_eq, ◌==◌, append_assoc,
  append-nil, Bool-cases,
}

pub record Tail : Type 0 where
  pub buf : Bytes
  pub max : ℕ

-- `Write`
unfoldable pub write : Bytes → Tail → Tail
write p t =
    let whole = t.buf ++ p in
    record t { buf = if ltb t.max (length whole) then drop (length whole - t.max) whole else whole }

unfoldable pub write_all : List Bytes → Tail → Tail
unfolding write
write_all [] t = t
write_all (p ∷ ps) t = write_all ps (write p t)

-- `bytesTrimSpace`, from the end: a byte is dropped when all that follows was
abbrev trimmed : ℕ → Bytes → Bytes
trimmed c [] = if c == 10 || c == 32 || c == 13 then [] else c ∷ []
trimmed c (d ∷ ds) = c ∷ d ∷ ds

unfoldable pub trim_end : Bytes → Bytes
trim_end [] = []
trim_end (c ∷ cs) = trimmed c (trim_end cs)

-- `String`
unfoldable pub text : Tail → Bytes
unfolding trim_end
text t = trim_end t.buf

-- The last `n` bytes.
abbrev pub last : ℕ → Bytes → Bytes
last n bs = drop (length bs - n) bs

abbrev pub concat : List Bytes → Bytes
concat [] = []
concat (p ∷ ps) = p ++ concat ps

drop-append : (k : ℕ) (a b : Bytes) → k ≤ length a → drop k (a ++ b) ≡ drop k a ++ b
drop-append zero a b h = refl
drop-append (suc k) [] b h = ground arith
drop-append (suc k) (c ∷ a) b h = drop-append k a b (ground arith)

drop-nil : (k : ℕ) → drop {A = ℕ} k [] ≡ []
drop-nil zero = refl
drop-nil (suc k) = refl

drop-drop : (j k : ℕ) (a : Bytes) → drop j (drop k a) ≡ drop (k + j) a
drop-drop j zero a = ap (λ x. drop x a) (omega arith)
drop-drop j (suc k) [] = drop-nil j ∙ sym (drop-nil (suc k + j))
drop-drop j (suc k) (c ∷ a) =
    let e : suc (k + j) ≡ suc k + j = omega arith in drop-drop j k a ∙ ap (λ x. drop x (c ∷ a)) e

length-drop : (k : ℕ) (a : Bytes) → length (drop k a) ≡ length a - k
length-drop zero a = ground arith
length-drop (suc k) [] = ground arith
length-drop (suc k) (c ∷ a) = ground (arith, length-drop k a)

-- What was cut off before has no part in the last bytes.
last-last : (n : ℕ) (a b : Bytes) → last n (last n a ++ b) ≡ last n (a ++ b)
last-last n a b =
    let k = length a - n in
    let cut : length (drop k a ++ b) - n ≡ (length a - k) + length b - n =
      ap (λ x. x - n) (length-append (drop k a) b ∙ ap (λ x. x + length b) (length-drop k a)) in
    rw (cut, ← drop-append k a b (omega arith), drop-drop)
      (ap (λ x. drop x (a ++ b)) (omega (arith, length-append a b)))

write-last : (p : Bytes) (t : Tail) → (write p t).buf ≡ last t.max (t.buf ++ p)
unfolding write
write-last p t = elim (Bool-cases (ltb t.max (length (t.buf ++ p)))) [
  | inl e ↦ rw e refl
  | inr e ↦ rw e (
      let none_cut : 0 ≡ length (t.buf ++ p) - t.max = ground arith in
      ap (λ x. drop x (t.buf ++ p)) none_cut)
]

length-last : (n : ℕ) (a : Bytes) → length (last n a) ≤ n
length-last n a = omega (arith, length-drop (length a - n) a)

last_of_short : (n : ℕ) (a : Bytes) → length a ≤ n → last n a ≡ a
last_of_short n a h = let none_cut : length a - n ≡ 0 = omega arith in ap (λ x. drop x a) none_cut

write_all-last_from :
    (ps : List Bytes) (t : Tail)
    → length t.buf ≤ t.max
    → (write_all ps t).buf ≡ last t.max (t.buf ++ concat ps)
unfolding write_all
write_all-last_from [] t h = sym (rw append-nil (last_of_short t.max t.buf h))
write_all-last_from (p ∷ ps) t h =
    let fits =
      subst (λ x. length x ≤ t.max) (sym (write-last p t)) (length-last t.max (t.buf ++ p)) in
    write_all-last_from ps (write p t) fits
    ∙ ap (λ x. last t.max (x ++ concat ps)) (write-last p t)
    ∙ last-last t.max (t.buf ++ p) (concat ps)
    ∙ ap (λ x. last t.max x) (append_assoc t.buf p (concat ps))

-- However a process splits its output into writes, the buffer holds its last `max` bytes.
pub write_all-last :
    (ps : List Bytes) (max : ℕ)
    → (write_all ps (record { buf = []; max = max })).buf ≡ last max (concat ps)
write_all-last ps max = write_all-last_from ps (record { buf = []; max = max }) (omega arith)
