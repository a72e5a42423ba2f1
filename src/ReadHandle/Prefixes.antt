-- ===== src/ReadHandle/Prefixes.antt =====
-- How many packets a prefix counts.
use difs.Prelude.{
  Text, text_eq, text_eq_refl, text_eq_iff, ℕ, zero, suc, ◌-◌, ◌≡◌, refl, sym, ap, ◌∙◌, inl, inr,
  Bool, Bool-cases, true, false, List, [], ◌∷◌, Option, none, some, if◌then◌else◌, arith, ◌==◌,
}
use difs.Prelude.Int.{ℤ, pos, ◌-ℤ◌, negsuc, int_le}
use difs.ReadHandle.{
  Prefixes, find_prefix, erase_prefix, on_data_inserted, on_data_deleted, count_more, count_less,
}

-- The signals of the storage.
pub data Signal : Type 0 where
  inserted : Text → Signal
  deleted : Text → Signal

-- The count of `n` packets; a prefix without a packet has no entry.
abbrev pub entry : ℕ → Option ℤ
entry zero = none
entry (suc n) = some (pos (suc n))

erased_twice :
    (here : Bool) (o rest : Option ℤ)
    → (if here then none else rest) ≡ (if here then none else if here then o else rest)
erased_twice true o rest = refl
erased_twice false o rest = refl

find-erase_prefix :
    (p q : Text) (m : Prefixes)
    → find_prefix q (erase_prefix p m) ≡ (if text_eq p q then none else find_prefix q m)
unfolding find_prefix erase_prefix
find-erase_prefix p q [] = ground arith
find-erase_prefix p q ((r, n) ∷ m) = elim (Bool-cases (text_eq r p)) [
  | inl same ↦
      let r_is_p : r ≡ p = (text_eq_iff r p).0 same in
      rw (same, find-erase_prefix p q m, r_is_p)
        (erased_twice (text_eq p q) (some n) (find_prefix q m))
  | inr other ↦ elim (Bool-cases (text_eq p q)) [
    | inl here ↦
        let p_is_q : p ≡ q = (text_eq_iff p q).0 here in
        let apart : text_eq r q ≡ false = ap (text_eq r) (sym p_is_q) ∙ other in
        rw (other, apart, find-erase_prefix p q m, here) refl
    | inr there ↦ rw (other, find-erase_prefix p q m, there) refl
  ]
]

next_pos : (n : ℕ) → pos n -ℤ negsuc 0 ≡ pos (suc n)
unfolding ◌-ℤ◌
next_pos n = ground arith

previous_pos : (n : ℕ) → pos (suc n) -ℤ pos 1 ≡ pos n
unfolding ◌-ℤ◌
previous_pos n = ground arith

at_most_zero : (n : ℕ) → int_le (pos n) (pos 0) ≡ (n == 0)
unfolding int_le
at_most_zero n = ground arith

find-here : (p : Text) (n : ℤ) (m : Prefixes) → find_prefix p ((p, n) ∷ m) ≡ some n
unfolding find_prefix
find-here p n m = rw (text_eq_refl p) refl

find-there :
    (p q : Text) (n : ℤ) (m : Prefixes)
    → text_eq q p ≡ false
    → find_prefix p ((q, n) ∷ m) ≡ find_prefix p m
unfolding find_prefix
find-there p q n m h = rw h refl

-- Counting up and down at the prefix itself.
more_here :
    (p : Text) (m : Prefixes) (n : ℕ) → find_prefix p (count_more p m (entry n)) ≡ entry (suc n)
more_here p m zero = find-here p (pos 1) m
more_here p m (suc n) =
    find-here p (pos (suc n) -ℤ negsuc 0) (erase_prefix p m)
    ∙ ap (λ (i : ℤ). some i) (next_pos (suc n))

less_here :
    (p : Text) (m : Prefixes) (n : ℕ)
    → find_prefix p m ≡ entry n
    → find_prefix p (count_less p m (entry n)) ≡ entry (n - 1)
less_here p m zero e = e
less_here p m (suc zero) e =
    rw (previous_pos 0, at_most_zero 0, find-erase_prefix p p m, text_eq_refl p) refl
less_here p m (suc (suc n)) e =
    let one_less : suc n ≡ suc (suc n) - 1 = omega arith in
    let more : (suc n == 0) ≡ false = ground arith in
    rw (previous_pos (suc n), at_most_zero (suc n), more)
      (find-here p (pos (suc n)) (erase_prefix p m) ∙ ap entry one_less)

-- And at another prefix.
more_there :
    (p q : Text) (m : Prefixes) (o : Option ℤ)
    → text_eq q p ≡ false
    → find_prefix p (count_more q m o) ≡ find_prefix p m
more_there p q m none h = find-there p q (pos 1) m h
more_there p q m (some n) h =
    find-there p q (n -ℤ negsuc 0) (erase_prefix q m) h ∙ rw (find-erase_prefix q p m, h) refl

less_there :
    (p q : Text) (m : Prefixes) (o : Option ℤ)
    → text_eq q p ≡ false
    → find_prefix p (count_less q m o) ≡ find_prefix p m
less_there p q m none h = refl
less_there p q m (some n) h = elim (Bool-cases (int_le (n -ℤ pos 1) (pos 0))) [
  | inl last ↦ rw (last, find-erase_prefix q p m, h) refl
  | inr some_left ↦
      rw some_left
        (find-there p q (n -ℤ pos 1) (erase_prefix q m) h ∙ rw (find-erase_prefix q p m, h) refl)
]

module _ (get_prefix : ℕ → Text → Text) (len : ℕ) where
  unfoldable pub receive : List Signal → Prefixes → Prefixes
  receive [] m = m
  receive (inserted name ∷ s) m = receive s (on_data_inserted get_prefix len name m)
  receive (deleted name ∷ s) m = receive s (on_data_deleted get_prefix len name m)

  -- The counter of `p` after the signals, `n` before: an insertion signal under it counts up, and a
  -- deletion signal counts down, to 0 at most.
  unfoldable pub level : Text → List Signal → ℕ → ℕ
  level p [] n = n
  level p (inserted name ∷ s) n = level p s (if text_eq (get_prefix len name) p then suc n else n)
  level p (deleted name ∷ s) n =
      level p s (if text_eq (get_prefix (suc len) name) p then n - 1 else n)

  find-on_data_inserted :
      (name p : Text) (m : Prefixes) (n : ℕ)
      → find_prefix p m ≡ entry n
      → find_prefix p (on_data_inserted get_prefix len name m)
        ≡ entry (if text_eq (get_prefix len name) p then suc n else n)
  unfolding on_data_inserted
  find-on_data_inserted name p m n e = elim (Bool-cases (text_eq (get_prefix len name) p)) [
    | inl same ↦
        let is_p : get_prefix len name ≡ p = (text_eq_iff (get_prefix len name) p).0 same in
        rw (is_p, e, text_eq_refl p) (more_here p m n)
    | inr other ↦
        rw other
          (more_there p (get_prefix len name) m (find_prefix (get_prefix len name) m) other ∙ e)
  ]

  find-on_data_deleted :
      (name p : Text) (m : Prefixes) (n : ℕ)
      → find_prefix p m ≡ entry n
      → find_prefix p (on_data_deleted get_prefix len name m)
        ≡ entry (if text_eq (get_prefix (suc len) name) p then n - 1 else n)
  unfolding on_data_deleted
  find-on_data_deleted name p m n e = elim (Bool-cases (text_eq (get_prefix (suc len) name) p)) [
    | inl same ↦
        let is_p : get_prefix (suc len) name ≡ p =
          (text_eq_iff (get_prefix (suc len) name) p).0 same in
        rw (is_p, e, text_eq_refl p) (less_here p m n e)
    | inr other ↦ rw other (
        less_there p (get_prefix (suc len) name) m (find_prefix (get_prefix (suc len) name) m) other
        ∙ e)
  ]

  -- After any sequence of insertion and deletion signals, a prefix has an entry exactly if its
  -- counter is not 0, and the entry is the counter: what it was before, one more for each insertion
  -- signal under the prefix, whether the packet is new or not, and one less, but not below 0, for
  -- each deletion signal.
  pub receive-level :
      (p : Text) (s : List Signal) (m : Prefixes) (n : ℕ)
      → find_prefix p m ≡ entry n
      → find_prefix p (receive s m) ≡ entry (level p s n)
  unfolding receive level
  receive-level p [] m n e = e
  receive-level p (inserted name ∷ s) m n e =
      receive-level p s (on_data_inserted get_prefix len name m)
        (if text_eq (get_prefix len name) p then suc n else n) (find-on_data_inserted name p m n e)
  receive-level p (deleted name ∷ s) m n e =
      receive-level p s (on_data_deleted get_prefix len name m)
        (if text_eq (get_prefix (suc len) name) p then n - 1 else n)
        (find-on_data_deleted name p m n e)
