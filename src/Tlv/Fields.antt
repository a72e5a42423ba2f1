-- ===== src/Tlv/Fields.antt =====
-- A block with optional fields: what is written, and what `find` sees.
use mathlib.Core.List.{append_assoc}
use difs.Prelude.{
  Text, ℕ, ◌≡◌, refl, ap, false, List, [], ◌∷◌, ◌++◌, Option, none, some, length, length-append,
  ◌==◌, if◌then◌else◌, arith,
}
use difs.Tlv.{
  Element, Tlv, Encoder, start, close_block, prepend_integer, prepend_block, block_bytes,
  join_blocks,
}

-- `m_wire.find(type)`, and `get(type)` of a type that is there: the first such element.
unfoldable pub find : ℕ → List Element → Option Text
find t [] = none
find t (e ∷ es) = if e.type == t then some e.value else find t es

-- A field that is written if it is there.
abbrev pub Field : Type 0
Field = ℕ × Option Text

unfoldable pub present : List Field → List Element
present [] = []
present ((t, none) ∷ fs) = present fs
present ((t, some v) ∷ fs) = record { type = t; value = v } ∷ present fs

-- The value of the field of a type.
abbrev pub field_value : ℕ → List Field → Option Text
field_value t [] = none
field_value t ((u, o) ∷ fs) = if u == t then o else field_value t fs

abbrev pub NoField : ℕ → List Field → Type 0
NoField t [] = Unit
NoField t ((u, o) ∷ fs) = ((u == t) ≡ false) × NoField t fs

-- No type has two fields.
abbrev pub Distinct : List Field → Type 0
Distinct [] = Unit
Distinct ((t, o) ∷ fs) = NoField t fs × Distinct fs

find-NoField : (t : ℕ) (fs : List Field) → NoField t fs → find t (present fs) ≡ none
unfolding find present
find-NoField t [] h = refl
find-NoField t ((u, none) ∷ fs) h = find-NoField t fs h.1
find-NoField t ((u, some v) ∷ fs) h = rw h.0 (find-NoField t fs h.1)

-- What is found under a type is the field's value, where no type has two fields.
pub find-present : (t : ℕ) (fs : List Field) → Distinct fs → find t (present fs) ≡ field_value t fs
unfolding find present
find-present t [] h = refl
find-present t ((u, none) ∷ fs) h = ground (
  arith,
  find-present t fs h.1,
  find-NoField u fs h.0,
  ap (λ (w : ℕ). find w (present fs)) {x = t} {y = u},
)
find-present t ((u, some v) ∷ fs) h = ground (arith, find-present t fs h.1)

abbrev pub map_option {ℓ κ} : {A : Type ℓ} {B : Type κ} → (A → B) → Option A → Option B
map_option f none = none
map_option f (some a) = some (f a)

-- `if (m_has…) { … }` around the lines of one field.
abbrev pub optional {ℓ} : {A : Type ℓ} → Option A → (A → Encoder → Encoder) → Encoder → Encoder
optional none f e = e
optional (some a) f e = f a e

module _ (T : Tlv) where
  open T use {var_number, nonneg}

  abbrev pub field_bytes : List Field → Text
  field_bytes fs = join_blocks var_number (present fs)

  -- The buffer holds the blocks of these fields, and the count is their size.
  pub record Writes (e : Encoder) (fs : List Field) : Type 0 where
    pub bytes : e.buffer ≡ field_bytes fs
    pub counted : e.total ≡ length e.buffer

  -- The three steps of an integer field write one block.
  pub prepend_integer-Writes :
      (type : ℕ) (o : Option ℕ) (e : Encoder) (fs : List Field)
      → Writes e fs
      → Writes (optional o (prepend_integer T type) e) ((type, map_option nonneg o) ∷ fs)
  unfolding present
  prepend_integer-Writes type none e fs w = record { bytes = w.bytes; counted = w.counted }
  prepend_integer-Writes type (some n) e fs w = record {
    bytes = rw (w.bytes, append_assoc, append_assoc);
    counted = omega (
      arith,
      w.counted,
      length-append (nonneg n) e.buffer,
      length-append (var_number (length (nonneg n))) (nonneg n ++ e.buffer),
      length-append (var_number type) (var_number (length (nonneg n)) ++ (nonneg n ++ e.buffer)),
    );
  }

  pub prepend_block-Writes :
      (type : ℕ) (o : Option Element) (e : Encoder) (fs : List Field)
      → ((b : Element) → o ≡ some b → b.type ≡ type)
      → Writes e fs
      → Writes (optional o (prepend_block T) e) ((type, map_option (λ b. b.value) o) ∷ fs)
  unfolding present
  prepend_block-Writes type none e fs typed w = record { bytes = w.bytes; counted = w.counted }
  prepend_block-Writes type (some b) e fs typed w = record {
    bytes = rw (w.bytes, typed b refl);
    counted =
        omega (arith, w.counted, length-append (block_bytes var_number b.type b.value) e.buffer);
  }

  -- A text that is wrapped in a block of the type.
  pub prepend_wrapped-Writes :
      (type : ℕ) (f : Text → Text) (o : Option Text) (e : Encoder) (fs : List Field)
      → Writes e fs
      → Writes
          (optional (map_option (λ n. record { type = type; value = f n }) o) (prepend_block T) e)
          ((type, map_option f o) ∷ fs)
  unfolding present
  prepend_wrapped-Writes type f none e fs w = record { bytes = w.bytes; counted = w.counted }
  prepend_wrapped-Writes type f (some n) e fs w =
      prepend_block-Writes type (some (record { type = type; value = f n })) e fs
        (λ b h. ground arith) w

  pub start-Writes : Writes start []
  unfolding present
  start-Writes = record { bytes = refl; counted = refl }

  -- Closing the fields gives one block with their elements, and the count is still the size.
  pub close_block-bytes :
      (type : ℕ) (e : Encoder) (fs : List Field)
      → Writes e fs
      → ((close_block T type e).buffer ≡ block_bytes var_number type (field_bytes fs))
        × ((close_block T type e).total ≡ length (close_block T type e).buffer)
  close_block-bytes type e fs w = (
    rw (w.counted, w.bytes),
    omega (
      arith,
      w.counted,
      length-append (var_number e.total) e.buffer,
      length-append (var_number type) (var_number e.total ++ e.buffer),
    ),
  )
