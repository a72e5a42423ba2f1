-- ===== src/KeySpace/Ring.antt =====
-- The key space as intervals of bytes: the specification of keyspace-handle.cpp.
use difs.Prelude.{
  Text, text_eq, ℕ, suc, ◌+◌, ◌-◌, ◌/◌, ◌≤◌, ◌<◌, ◌≡◌, refl, inl, inr, ◌⊎◌, Bool, Bool-cases, true,
  false, ◌&&◌, List, [], ◌∷◌, ◌++◌, Option, none, some, Option-cases, leb, ltb, if◌then◌else◌,
  arith, All,
}

-- The bytes from `lo` to `hi`; none if `hi` is below `lo`.
pub record Interval : Type 0 where
  pub node : Text
  pub lo : ℕ
  pub hi : ℕ

abbrev pub Ring : Type 0
Ring = List Interval

unfoldable pub holds : ℕ → Interval → Bool
holds b i = leb i.lo b && leb b i.hi

-- How many intervals a byte lies in.
unfoldable pub owners : ℕ → Ring → ℕ
unfolding holds
owners b [] = 0
owners b (i ∷ r) = (if holds b i then 1 else 0) + owners b r

-- Every byte has one owner.
abbrev pub IsPartition : Ring → Type 0
IsPartition r = (b : ℕ) → b < 256 → owners b r ≡ 1

abbrev pub Has : Interval → Ring → Type 0
Has i [] = ⊥
Has i (j ∷ r) = (i ≡ j) ⊎ Has i r

-- Splitting an interval in two, the upper half for a new node.
unfoldable pub middle : Interval → ℕ
middle i = i.hi - (i.hi - i.lo) / 2

unfoldable pub lower : Interval → Interval
unfolding middle
lower i = record i { hi = middle i - 1 }

unfoldable pub upper : Text → Interval → Interval
unfolding middle
upper to i = record { node = to; lo = middle i; hi = i.hi }

abbrev pub put_first : Interval → Option Ring → Option Ring
put_first i none = none
put_first i (some l) = some (i ∷ l)

-- Adding a node: the first interval of `from` is split.
unfoldable pub add : Text → Text → Ring → Option Ring
unfolding lower upper
add from to [] = none
add from to (i ∷ r) =
    let rest = put_first i (add from to r) in
    if text_eq i.node from then some (lower i ∷ (r ++ upper to i ∷ [])) else rest

-- The interval that is split can be: it is not empty, and not the byte 0 alone.
abbrev pub Splits : Text → Ring → Type 0
Splits from [] = ⊥
Splits from (i ∷ r) =
    (text_eq i.node from ≡ true → (i.lo ≤ i.hi) × (0 < i.hi))
    × (text_eq i.node from ≡ false → Splits from r)

pub owners-append : (b : ℕ) (r s : Ring) → owners b (r ++ s) ≡ owners b r + owners b s
unfolding owners
owners-append b [] s = omega arith
owners-append b (i ∷ r) s = ground (arith, owners-append b r s)

owners-split :
    (b : ℕ) (to : Text) (i : Interval)
    → i.lo ≤ i.hi
    → 0 < i.hi
    → owners b (lower i ∷ []) + owners b (upper to i ∷ []) ≡ owners b (i ∷ [])
unfolding owners lower upper
owners-split b to i h k = ground arith

owners-halves :
    (b : ℕ) (to : Text) (i : Interval) (r : Ring)
    → i.lo ≤ i.hi
    → 0 < i.hi
    → owners b (lower i ∷ (r ++ upper to i ∷ [])) ≡ owners b (i ∷ r)
unfolding owners
owners-halves b to i r h k =
    omega (arith, owners-split b to i h k, owners-append b r (upper to i ∷ []))

owners-put_first :
    (b : ℕ) (i : Interval) (r s : Ring) (o : Option Ring)
    → ((t : Ring) → o ≡ some t → owners b t ≡ owners b r)
    → put_first i o ≡ some s
    → owners b s ≡ owners b (i ∷ r)
unfolding owners
owners-put_first b i r s none h e = ground arith
owners-put_first b i r s (some t) h e = ground (arith, h t)

-- Adding a node changes the number of owners of no byte.
pub owners-add :
    (b : ℕ) (from to : Text) (r s : Ring)
    → Splits from r
    → add from to r ≡ some s
    → owners b s ≡ owners b r
unfolding add
owners-add b from to [] s h e = absurd h
owners-add b from to (i ∷ r) s h e = elim (Bool-cases (text_eq i.node from)) [
  | inl same ↦ ground (arith, owners-halves b to i r ((h.0 same).0) ((h.0 same).1))
  | inr other ↦
      owners-put_first b i r s (add from to r) (λ t. owners-add b from to r t (h.1 other))
        (ground arith)
]

abbrev keep : Interval → Option (Interval × Ring) → Option (Interval × Ring)
keep i none = none
keep i (some (j, r)) = some (j, i ∷ r)

-- The first interval of a node, and the others.
unfoldable pub remove : Text → Ring → Option (Interval × Ring)
remove from [] = none
remove from (i ∷ r) =
    let rest = keep i (remove from r) in if text_eq i.node from then some (i, r) else rest

-- The intervals of the node `to` reach over `i`.
unfoldable pub reach : Interval → Interval → Interval
reach i j = if ltb i.hi j.lo then record j { lo = i.lo } else record j { hi = i.hi }

unfoldable pub extend : Interval → Text → Ring → Ring
unfolding reach
extend i to [] = []
extend i to (j ∷ r) = (if text_eq j.node to then reach i j else j) ∷ extend i to r

abbrev pub extend_over : Text → Option (Interval × Ring) → Option Ring
extend_over to none = none
extend_over to (some (i, r)) = some (extend i to r)

-- Deleting a node: its neighbour takes the interval over.
unfoldable pub delete : Text → Text → Ring → Option Ring
unfolding remove extend
delete from to r = extend_over to (remove from r)

abbrev pub Absent : Text → Ring → Type 0
Absent to r = All (λ (j : Interval). text_eq j.node to ≡ false) r

-- The node `to` has one interval at most.
abbrev pub Once : Text → Ring → Type 0
Once to [] = Unit
Once to (j ∷ r) = (text_eq j.node to ≡ true → Absent to r) × (text_eq j.node to ≡ false → Once to r)

-- `i` and `j` lie side by side, and neither is empty.
abbrev pub Touches : Interval → Interval → Type 0
Touches i j = (i.lo ≤ i.hi) × (j.lo ≤ j.hi) × ((suc i.hi ≡ j.lo) ⊎ (suc j.hi ≡ i.lo))

-- `to` has one interval, and it lies beside `i`.
abbrev pub Beside : Interval → Text → Ring → Type 0
Beside i to [] = ⊥
Beside i to (j ∷ r) =
    (text_eq j.node to ≡ true → Touches i j × Absent to r)
    × (text_eq j.node to ≡ false → Beside i to r)

owners-remove :
    (b : ℕ) (from : Text) (r : Ring) (i : Interval) (s : Ring)
    → remove from r ≡ some (i, s)
    → owners b r ≡ owners b (i ∷ s)
unfolding remove owners
owners-remove b from [] i s e = ground arith
owners-remove b from (j ∷ r) i s e = elim (Bool-cases (text_eq j.node from)) [
  | inl same ↦ ground (arith, e)
  | inr other ↦ elim (Option-cases (remove from r)) [
    | inl none_left ↦ ground (arith, e)
    | inr ((k, t), q) ↦ ground (arith, e, owners-remove b from r k t q)
  ]
]

pub extend-Absent : (i : Interval) (to : Text) (r : Ring) → Absent to r → extend i to r ≡ r
unfolding extend
extend-Absent i to [] h = refl
extend-Absent i to (j ∷ r) h = rw (h.0, extend-Absent i to r h.1) refl

owners-reach :
    (b : ℕ) (i j : Interval)
    → Touches i j
    → owners b (reach i j ∷ []) ≡ owners b (i ∷ []) + owners b (j ∷ [])
unfolding owners reach
owners-reach b i j h = ground arith

-- Reaching over an interval beside it counts the bytes of both.
owners-extend :
    (b : ℕ) (i : Interval) (to : Text) (r : Ring)
    → Beside i to r
    → owners b (extend i to r) ≡ owners b (i ∷ r)
unfolding owners extend
owners-extend b i to [] h = absurd h
owners-extend b i to (j ∷ r) h = elim (Bool-cases (text_eq j.node to)) [
  | inl same ↦
      rw (same, extend-Absent i to r ((h.0 same).1))
        (omega (arith, owners-reach b i j ((h.0 same).0)))
  | inr other ↦ rw other (omega (arith, owners-extend b i to r (h.1 other)))
]

pub Beside-Once : (i : Interval) (to : Text) (r : Ring) → Beside i to r → Once to r
Beside-Once i to [] h = absurd h
Beside-Once i to (j ∷ r) h = (λ e. (h.0 e).1, λ e. Beside-Once i to r (h.1 e))

-- The node that takes over lies beside the one that is deleted.
abbrev pub Adjoins : Text → Text → Ring → Type 0
Adjoins from to r = (i : Interval) (s : Ring) → remove from r ≡ some (i, s) → Beside i to s

-- Deleting a node changes the number of owners of no byte.
pub owners-delete :
    (b : ℕ) (from to : Text) (r s : Ring)
    → Adjoins from to r
    → delete from to r ≡ some s
    → owners b s ≡ owners b r
unfolding delete
owners-delete b from to r s h e = elim (Option-cases (remove from r)) [
  | inl no_node ↦ ground (arith, e)
  | inr ((i, t), q) ↦
      ground (arith, e, owners-remove b from r i t q, owners-extend b i to t (h i t q))
]
