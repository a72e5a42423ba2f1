-- ===== src/KeySpace/Takeover.antt =====
-- `handleDeleteCommand` of keyspace-handle.cpp on documents, against the intervals.
use difs.Prelude.{
  Text, text_eq, ℕ, ◌≡◌, refl, subst, inl, inr, Bool-cases, true, false, [], ◌∷◌, some,
  Option-cases, if◌then◌else◌, arith, ltb,
}
use difs.Prelude.Int.{ℤ, pos, int_lt}
use difs.Prelude.Hex.{print_0x}
use difs.Prelude.Hex.Laws.{stoi_hex-print_0x}
use difs.KeySpace.{NodeDoc, KeySpaceDoc, take_node, take_over, give_range, delete_node}
use difs.KeySpace.Ring.{Interval, Ring, remove, reach, extend, extend-Absent, delete, Absent, Once}
use difs.KeySpace.Refines.{Shows, Represents}

-- The entry after it takes the range of `i` over, where it does.
abbrev reached : Interval → NodeDoc → Interval → NodeDoc
reached i n j =
    if ltb i.hi j.lo
    then record n { start = print_0x (pos i.lo) }
    else record n { end = print_0x (pos i.hi) }

Shows-reached :
    (i : Interval) (m n : NodeDoc) (j : Interval)
    → Shows m i
    → Shows n j
    → Shows (reached i n j) (reach i j)
unfolding reach
Shows-reached i m n j h k = elim (Bool-cases (ltb i.hi j.lo)) [
  | inl below ↦ rw below (k.0, stoi_hex-print_0x i.lo h.3, k.2, h.3, k.4)
  | inr above ↦ rw above (k.0, k.1, stoi_hex-print_0x i.hi h.4, k.3, h.4)
]

int_lt_pos : (a b : ℕ) → int_lt (pos a) (pos b) ≡ ltb a b
unfolding int_lt
int_lt_pos a b = ground arith

take_over-hit :
    (to : Text) (i : Interval) (n : NodeDoc) (j : Interval)
    → Shows n j
    → text_eq n.node to ≡ true
    → (stream : Text) × (take_over to (pos i.lo, pos i.hi) [] n ≡ some (stream, reached i n j))
unfolding take_over
take_over-hit to i n j k same = elim (Bool-cases (ltb i.hi j.lo)) [
  | inl below ↦ (print_0x (pos i.lo), rw (same, k.1, int_lt_pos i.hi j.lo, below) refl)
  | inr above ↦ (print_0x (pos i.hi), rw (same, k.1, int_lt_pos i.hi j.lo, above) refl)
]

take_over-miss :
    (to : Text) (range : ℤ × ℤ) (stream : Text) (n : NodeDoc)
    → text_eq n.node to ≡ false
    → take_over to range stream n ≡ some (stream, n)
unfolding take_over
take_over-miss to range stream n other = rw other refl

give_range-cons :
    (to : Text) (range : ℤ × ℤ) (stream stream' : Text) (n m : NodeDoc) (ns out : KeySpaceDoc)
    → take_over to range stream n ≡ some (stream', m)
    → give_range to range stream' ns ≡ some out
    → give_range to range stream (n ∷ ns) ≡ some (m ∷ out)
unfolding give_range
give_range-cons to range stream stream' n m ns out h e = rw (h, e) refl

-- Entries of other nodes stay as they are.
give_range-Absent :
    (to : Text) (range : ℤ × ℤ) (stream : Text) (doc : KeySpaceDoc) (r : Ring)
    → Represents doc r
    → Absent to r
    → give_range to range stream doc ≡ some doc
unfolding give_range
give_range-Absent to range stream [] r k other = refl
give_range-Absent to range stream (n ∷ ns) [] k other = absurd k
give_range-Absent to range stream (n ∷ ns) (j ∷ r) k other =
    give_range-cons to range stream stream n n ns ns
      (take_over-miss to range stream n (rw (k.0.0) other.0))
      (give_range-Absent to range stream ns r k.1 other.1)

give_range-extend :
    (i : Interval) (m : NodeDoc) (to : Text) (doc : KeySpaceDoc) (r : Ring)
    → Shows m i
    → Represents doc r
    → Once to r
    → (out : KeySpaceDoc) × (give_range to (pos i.lo, pos i.hi) [] doc ≡ some out)
      × Represents out (extend i to r)
unfolding give_range extend
give_range-extend i m to [] [] h k once = ([], refl, tt)
give_range-extend i m to [] (j ∷ r) h k once = absurd k
give_range-extend i m to (n ∷ ns) [] h k once = absurd k
give_range-extend i m to (n ∷ ns) (j ∷ r) h k once = elim (Bool-cases (text_eq j.node to)) [
  | inl same ↦
      let (stream, hit) = take_over-hit to i n j k.0 (rw (k.0.0) same) in
      let absent = once.0 same in
      (
        reached i n j ∷ ns,
        give_range-cons to (pos i.lo, pos i.hi) [] stream n (reached i n j) ns ns hit
            (give_range-Absent to (pos i.lo, pos i.hi) stream ns r k.1 absent),
        rw (same, extend-Absent i to r absent) (Shows-reached i m n j h k.0, k.1),
      )
  | inr other ↦
      let (out, runs, shows) = give_range-extend i m to ns r h k.1 (once.1 other) in
      (
        n ∷ out,
        give_range-cons to (pos i.lo, pos i.hi) [] [] n n ns out
            (take_over-miss to (pos i.lo, pos i.hi) [] n (rw (k.0.0) other)) runs,
        rw other (k.0, shows),
      )
]

take_node-hit :
    (from : Text) (unset : ℤ × ℤ) (n : NodeDoc) (ns : KeySpaceDoc) (i : Interval)
    → Shows n i
    → text_eq n.node from ≡ true
    → take_node from unset (n ∷ ns) ≡ some ((pos i.lo, pos i.hi), ns)
unfolding take_node
take_node-hit from unset n ns i h same = rw (same, h.1, h.2) refl

take_node-miss :
    (from : Text) (unset range : ℤ × ℤ) (n : NodeDoc) (ns left : KeySpaceDoc)
    → text_eq n.node from ≡ false
    → take_node from unset ns ≡ some (range, left)
    → take_node from unset (n ∷ ns) ≡ some (range, n ∷ left)
unfolding take_node
take_node-miss from unset range n ns left other e = rw (other, e) refl

-- `take_node` finds an entry that shows `i`, and leaves entries that show `s`.
abbrev Takes : Text → ℤ × ℤ → KeySpaceDoc → Interval → Ring → Type 0
Takes from unset doc i s =
    (m : NodeDoc) × (left : KeySpaceDoc) × Shows m i
    × (take_node from unset doc ≡ some ((pos i.lo, pos i.hi), left))
    × Represents left s

take_node-remove :
    (from : Text) (unset : ℤ × ℤ) (doc : KeySpaceDoc) (r : Ring) (i : Interval) (s : Ring)
    → Represents doc r
    → remove from r ≡ some (i, s)
    → Takes from unset doc i s
unfolding remove
take_node-remove from unset [] [] i s h e = absurd (ground (arith, e))
take_node-remove from unset [] (j ∷ r) i s h e = absurd h
take_node-remove from unset (n ∷ ns) [] i s h e = absurd h
take_node-remove from unset (n ∷ ns) (j ∷ r) i s h e = elim (Bool-cases (text_eq j.node from)) [
  | inl same ↦
      let is_i : j ≡ i = ground (arith, e) in
      let is_s : r ≡ s = ground (arith, e) in
      subst (λ (i' : Interval). Takes from unset (n ∷ ns) i' s) is_i
        (subst (λ (s' : Ring). Takes from unset (n ∷ ns) j s') is_s
          (n, ns, h.0, take_node-hit from unset n ns j h.0 (rw (h.0.0) same), h.1))
  | inr other ↦ elim (Option-cases (remove from r)) [
    | inl no_node ↦ absurd (ground (arith, e))
    | inr ((k, t), q) ↦
        let (m, left, shows, runs, rest) = take_node-remove from unset ns r k t h.1 q in
        let is_i : k ≡ i = ground (arith, e) in
        let is_s : j ∷ t ≡ s = ground (arith, e) in
        subst (λ (i' : Interval). Takes from unset (n ∷ ns) i' s) is_i
          (subst (λ (s' : Ring). Takes from unset (n ∷ ns) k s') is_s
            (
              m,
              n ∷ left,
              shows,
              take_node-miss from unset (pos k.lo, pos k.hi) n ns left (rw (h.0.0) other) runs,
              (h.0, rest),
            ))
  ]
]

-- `handleDeleteCommand` does to the entries what reaching over does to the intervals, where the
-- node that is deleted has an entry, and the node that takes over has one entry at most among the
-- others: it ends without an exception, and its document stands for the intervals that are left.
pub delete_node-delete :
    (from to : Text) (unset : ℤ × ℤ) (doc : KeySpaceDoc) (r s : Ring)
    → Represents doc r
    → delete from to r ≡ some s
    → ((i : Interval) (t : Ring) → remove from r ≡ some (i, t) → Once to t)
    → (out : KeySpaceDoc) × (delete_node from to unset doc ≡ some out) × Represents out s
unfolding delete_node delete
delete_node-delete from to unset doc r s h e once = elim (Option-cases (remove from r)) [
  | inl no_node ↦ absurd (ground (arith, e))
  | inr ((i, t), q) ↦
      let (m, left, shows, takes, kept) = take_node-remove from unset doc r i t h q in
      let (out, gives, rest) = give_range-extend i m to left t shows kept (once i t q) in
      let is_s : extend i to t ≡ s = ground (arith, e) in
      (out, rw takes gives, subst (λ u. Represents out u) is_s rest)
]
