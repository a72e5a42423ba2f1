-- ===== src/KeySpace/Refines.antt =====
-- The handlers of keyspace-handle.cpp on documents, against the intervals they stand for.
use difs.Prelude.{
  Text, text_eq, ℕ, ◌-◌, ◌/◌, ◌^◌, ◌≤◌, ◌<◌, ◌≡◌, refl, subst, inl, inr, Bool-cases, true, false,
  [], ◌∷◌, ◌++◌, some, Option-cases, arith,
}
use difs.Prelude.Int.{pos, ◌-ℤ◌, half}
use difs.Prelude.Hex.{stoi_hex, print_0x}
use difs.Prelude.Hex.Laws.{stoi_hex-print_0x}
use difs.KeySpace.{NodeDoc, KeySpaceDoc, split_node, add_node}
use difs.KeySpace.Ring.{Interval, Ring, middle, lower, upper, add, Splits}

-- An entry says what an interval says, in numbers that fit an `int`.
abbrev pub Shows : NodeDoc → Interval → Type 0
Shows n i =
    (n.node ≡ i.node)
    × (stoi_hex n.start ≡ some (pos i.lo))
    × (stoi_hex n.end ≡ some (pos i.hi))
    × (i.lo < 2 ^ 31)
    × (i.hi < 2 ^ 31)

abbrev pub Represents : KeySpaceDoc → Ring → Type 0
Represents [] [] = Unit
Represents [] (i ∷ r) = ⊥
Represents (n ∷ ns) [] = ⊥
Represents (n ∷ ns) (i ∷ r) = Shows n i × Represents ns r

Represents-append :
    (ns ms : KeySpaceDoc) (r s : Ring)
    → Represents ns r
    → Represents ms s
    → Represents (ns ++ ms) (r ++ s)
Represents-append [] ms [] s h k = k
Represents-append [] ms (i ∷ r) s h k = absurd h
Represents-append (n ∷ ns) ms [] s h k = absurd h
Represents-append (n ∷ ns) ms (i ∷ r) s h k = (h.0, Represents-append ns ms r s h.1 k)

sub_pos : (a b : ℕ) → b ≤ a → pos a -ℤ pos b ≡ pos (a - b)
unfolding ◌-ℤ◌
sub_pos a b h = ground arith

half_pos : (n : ℕ) → half (pos n) ≡ pos (n / 2)
unfolding half
half_pos n = refl

split_sizes :
    (lo hi : ℕ)
    → lo ≤ hi
    → 0 < hi
    → (pos hi -ℤ half (pos hi -ℤ pos lo) ≡ pos (hi - (hi - lo) / 2))
      × ((pos hi -ℤ half (pos hi -ℤ pos lo)) -ℤ pos 1 ≡ pos (hi - (hi - lo) / 2 - 1))
split_sizes lo hi h k =
    let up : pos hi -ℤ half (pos hi -ℤ pos lo) ≡ pos (hi - (hi - lo) / 2) =
      rw (sub_pos hi lo h, half_pos (hi - lo)) (sub_pos hi ((hi - lo) / 2) (omega arith)) in
    (up, rw up (sub_pos (hi - (hi - lo) / 2) 1 (omega arith)))

abbrev halves : Text → NodeDoc → Interval → NodeDoc × NodeDoc
halves to n i = (
  record n { end = print_0x (pos (middle i - 1)) },
  record { node = to; start = print_0x (pos (middle i)); end = print_0x (pos i.hi) },
)

split_node_lem :
    (to : Text) (n : NodeDoc) (i : Interval)
    → Shows n i
    → i.lo ≤ i.hi
    → 0 < i.hi
    → split_node to n ≡ some (halves to n i)
unfolding split_node middle
split_node_lem to n i h k l =
    rw (h.1, h.2)
      (rw ((split_sizes i.lo i.hi k l).0)
        (rw (sub_pos (i.hi - (i.hi - i.lo) / 2) 1 (omega arith)) refl))

Shows-lower :
    (to : Text) (n : NodeDoc) (i : Interval) → Shows n i → Shows (halves to n i).0 (lower i)
unfolding lower middle
Shows-lower to n i h =
    let small : middle i < 2 ^ 31 = omega arith in
    (h.0, h.1, stoi_hex-print_0x (middle i - 1) (omega arith), h.3, omega arith)

Shows-upper :
    (to : Text) (n : NodeDoc) (i : Interval) → Shows n i → Shows (halves to n i).1 (upper to i)
unfolding upper middle
Shows-upper to n i h =
    let small : middle i < 2 ^ 31 = omega arith in
    (refl, stoi_hex-print_0x (middle i) small, stoi_hex-print_0x i.hi h.4, small, h.4)

add_node-hit :
    (from to : Text) (n : NodeDoc) (ns : KeySpaceDoc) (out : NodeDoc × NodeDoc)
    → text_eq n.node from ≡ true
    → split_node to n ≡ some out
    → add_node from to (n ∷ ns) ≡ some (some (out.0 ∷ (ns ++ out.1 ∷ [])))
unfolding add_node
add_node-hit from to n ns out h e = rw (h, e) refl

add_node-miss :
    (from to : Text) (n : NodeDoc) (ns out : KeySpaceDoc)
    → text_eq n.node from ≡ false
    → add_node from to ns ≡ some (some out)
    → add_node from to (n ∷ ns) ≡ some (some (n ∷ out))
unfolding add_node
add_node-miss from to n ns out h e = rw (h, e) refl

-- `handleAddCommand` does to the entries what splitting an interval does to the intervals, where
-- the first interval of the node is not empty and not the byte 0 alone: it ends without an
-- exception, and its document stands for the intervals with the new one.
pub add_node-add :
    (from to : Text) (doc : KeySpaceDoc) (r s : Ring)
    → Represents doc r
    → Splits from r
    → add from to r ≡ some s
    → (out : KeySpaceDoc) × (add_node from to doc ≡ some (some out)) × Represents out s
unfolding add
add_node-add from to [] [] s h k e = absurd k
add_node-add from to [] (i ∷ r) s h k e = absurd h
add_node-add from to (n ∷ ns) [] s h k e = absurd h
add_node-add from to (n ∷ ns) (i ∷ r) s h k e = elim (Bool-cases (text_eq i.node from)) [
  | inl same ↦
      let split = split_node_lem to n i h.0 ((k.0 same).0) ((k.0 same).1) in
      let is_s : lower i ∷ (r ++ upper to i ∷ []) ≡ s = ground (arith, e) in
      (
        (halves to n i).0 ∷ (ns ++ (halves to n i).1 ∷ []),
        add_node-hit from to n ns (halves to n i) (rw (h.0.0) same) split,
        subst (λ t. Represents ((halves to n i).0 ∷ (ns ++ (halves to n i).1 ∷ [])) t) is_s
            (
              Shows-lower to n i h.0,
              Represents-append ns ((halves to n i).1 ∷ []) r (upper to i ∷ []) h.1
                  (Shows-upper to n i h.0, tt),
            ),
      )
  | inr other ↦ elim (Option-cases (add from to r)) [
    | inl no_node ↦ absurd (ground (arith, e))
    | inr (t, q) ↦
        let (out, runs, shows) = add_node-add from to ns r t h.1 (k.1 other) q in
        let is_s : i ∷ t ≡ s = ground (arith, e) in
        (
          n ∷ out,
          add_node-miss from to n ns out (rw (h.0.0) other) runs,
          subst (λ u. Represents (n ∷ out) u) is_s (h.0, shows),
        )
  ]
]
