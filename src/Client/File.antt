-- ===== src/Client/File.antt =====
-- What `putFilePrepareNextData` prepares, and what `getFile` makes of it.
use difs.Prelude.{
  Text, ℕ, zero, suc, ◌+◌, ◌-◌, ◌*◌, ◌/◌, ◌%◌, ◌^◌, ◌<◌, ◌≡◌, refl, sym, ap, ◌∙◌, false, List, [],
  ◌∷◌, ◌++◌, length, take, drop, is_nil, take-append-drop, arith,
}
use difs.Prelude.Int.{pos, pos_part, ◌-ℤ◌, negsuc, to_i32}
use native.Mathlib.Nat.{div-add-mod}
use difs.Manifest.{make}
use difs.Client.{
  Segment, file_manifest, chunk_size, last_data_size, read_chunk, prepare,
  put_file_prepare_next_data, written,
}

-- The packets are numbered one after another.
abbrev pub Numbered : ℕ → List Segment → Type 0
Numbered n [] = Unit
Numbered n (s ∷ ss) = (s.number ≡ pos n) × Numbered (suc n) ss

drop_none : (n : ℕ) → drop {A = ℕ} n [] ≡ []
drop_none zero = refl
drop_none (suc n) = refl

drop-drop : (n m : ℕ) (xs : Text) → drop m (drop n xs) ≡ drop (n + m) xs
drop-drop zero m xs = ap (λ k. drop k xs) (omega arith)
drop-drop (suc n) zero [] = sym (drop_none (suc n + 0))
drop-drop (suc n) (suc m) [] = sym (drop_none (suc n + suc m))
drop-drop (suc n) m (x ∷ xs) =
    drop-drop n m xs ∙ ap (λ k. drop k (x ∷ xs)) {x = suc (n + m)} (omega arith)

read_then :
    (position size : ℕ) (file : Text)
    → take size (drop position file) ++ drop (position + size) file ≡ drop position file
read_then position size file =
    ap (λ t. take size (drop position file) ++ t) (sym (drop-drop position size file))
    ∙ take-append-drop size (drop position file)

reads_some :
    (position size : ℕ) (file : Text)
    → position < length file
    → 0 < size
    → is_nil (take size (drop position file)) ≡ false
reads_some position size [] h k = absurd (omega arith)
reads_some zero zero (x ∷ xs) h k = absurd (omega arith)
reads_some zero (suc size) (x ∷ xs) h k = refl
reads_some (suc position) size (x ∷ xs) h k = reads_some position size xs (omega arith) k

drop_all : (file : Text) → drop (length file) file ≡ []
drop_all [] = refl
drop_all (x ∷ xs) = drop_all xs

chunk_size_lem :
    (file : Text) (size : ℕ)
    → length file / size < 2 ^ 31
    → chunk_size file size ≡ pos (length file / size)
unfolding chunk_size to_i32
chunk_size_lem file size h = ground arith

-- What the packets hold when the blocks from `left` on have been read.
pub record Holds (file : Text) (size left : ℕ) (packets : List Segment) : Type 0 where
  pub content : written packets ≡ drop (size * left) file
  pub numbers : Numbered left packets
  pub count : length packets + left ≡ suc (length file / size)

module _ (file : Text) (size : ℕ) (positive : 0 < size) (fits : length file / size < 2 ^ 31) where
  blocks : (q : ℕ) → length file / size ≡ q → length file ≡ size * q + length file % size
  blocks q m = sym (div-add-mod (length file) size) ∙ ap (λ k. size * k + length file % size) m

  read_chunk_lem :
      (left count : ℕ)
      → length file / size ≡ left + suc count
      → read_chunk file size (suc count) ≡ take size (drop (size * left) file)
  unfolding read_chunk last_data_size
  read_chunk_lem left count m = ap (λ k. take size (drop k file)) (position left count m)
    where
      position :
          (left count : ℕ)
          → length file / size ≡ left + suc count
          → length file - length file % size - size * suc count ≡ size * left
      position left count m = omega (arith, blocks (left + suc count) m)

  number_lem :
      (left count : ℕ)
      → length file / size ≡ left + count
      → chunk_size file size -ℤ pos count ≡ pos left
  unfolding ◌-ℤ◌
  number_lem left count m =
      ap (λ c. c -ℤ pos count) (chunk_size_lem file size fits ∙ ap pos m) ∙ ground arith

  rounds_lem : pos_part (chunk_size file size -ℤ negsuc 0) ≡ suc (length file / size)
  unfolding ◌-ℤ◌
  rounds_lem = ap (λ c. pos_part (c -ℤ negsuc 0)) (chunk_size_lem file size fits) ∙ ground arith

  round-Holds :
      (left count : ℕ) (packets : List Segment)
      → length file / size ≡ left + suc count
      → Holds file size (suc left) packets
      → Holds file size left (
          record {
            number = chunk_size file size -ℤ pos (suc count);
            content = read_chunk file size (suc count);
            final_block = chunk_size file size;
          }
          ∷ packets)
  unfolding written
  round-Holds left count packets m held = record {
    content =
        ap (λ t. t ++ written packets) (read_chunk_lem left count m)
        ∙ ap (λ t. take size (drop (size * left) file) ++ t)
            (held.content ∙ ap (λ k. drop k file) (omega arith))
        ∙ read_then (size * left) size file;
    numbers = (number_lem left (suc count) m, held.numbers);
    count = omega (arith, held.count);
  }

  prepare-Holds :
      (left count : ℕ) (packets : List Segment)
      → length file / size ≡ left + count
      → Holds file size left packets
      → Holds file size 0 (prepare file size left (suc count) packets)
  unfolding prepare
  prepare-Holds zero count packets m held = held
  prepare-Holds (suc left) count packets m held = rw reads (
      prepare-Holds left (suc count) _ (omega arith)
        (round-Holds left count packets (omega arith) held))
    where
      reads : is_nil (read_chunk file size (suc count)) ≡ false
      reads =
          ap is_nil (read_chunk_lem left count (omega arith))
          ∙ reads_some (size * left) size file (omega (arith, blocks (suc left + count) m)) positive

  -- A file whose last block is not full.
  module _ (rest : 0 < length file % size) where
    first_read :
        read_chunk file size 0 ≡ take (length file % size) (drop (size * (length file / size)) file)
    unfolding read_chunk last_data_size
    first_read =
        ap (λ k. take (length file % size) (drop k file))
          (omega (arith, blocks (length file / size) refl))

    first-Holds : Holds file size (length file / size) (
        record {
          number = chunk_size file size -ℤ pos 0;
          content = read_chunk file size 0;
          final_block = chunk_size file size;
        }
        ∷ [])
    unfolding written read_chunk last_data_size
    first-Holds = record {
      content =
          ap (λ t. t ++ []) first_read
          ∙ ap (λ t. take (length file % size) (drop (size * (length file / size)) file) ++ t)
              (sym (ap (λ k. drop k file) (sym (blocks (length file / size) refl)) ∙ drop_all file))
          ∙ read_then (size * (length file / size)) (length file % size) file;
      numbers = (number_lem (length file / size) 0 (omega arith), tt);
      count = omega arith;
    }

    put_file_prepare_next_data-Holds : Holds file size 0 (put_file_prepare_next_data file size)
    unfolding put_file_prepare_next_data prepare
    put_file_prepare_next_data-Holds =
        rw (rounds_lem, reads) (prepare-Holds (length file / size) 0 _ (omega arith) first-Holds)
      where
        reads : is_nil (read_chunk file size 0) ≡ false
        reads =
            ap is_nil first_read
            ∙ reads_some (size * (length file / size)) (length file % size) file
                (omega (arith, blocks (length file / size) refl)) rest

prepare-first :
    (file : Text) (size left : ℕ) → length file % size ≡ 0 → prepare file size left 0 [] ≡ []
unfolding prepare read_chunk last_data_size
prepare-first file size zero e = refl
prepare-first file size (suc left) e = rw e

-- Where the last block of a file is neither empty nor full, and its blocks fit an `int`, the
-- contents of the packets, one after another, are the file, and they are numbered from 0 to the
-- number of whole blocks.
pub put-then_get :
    (file : Text) (size : ℕ)
    → 0 < size
    → length file / size < 2 ^ 31
    → 0 < length file % size
    → (written (put_file_prepare_next_data file size) ≡ file)
      × Numbered 0 (put_file_prepare_next_data file size)
      × (length (put_file_prepare_next_data file size) ≡ suc (length file / size))
put-then_get file size positive fits rest = (
  held.content ∙ ap (λ k. drop k file) {y = 0} (omega arith),
  held.numbers,
  omega (arith, held.count),
)
  where
    held : Holds file size 0 (put_file_prepare_next_data file size)
    held = put_file_prepare_next_data-Holds file size positive fits rest

-- Where the last block of a file is neither empty nor full, and its blocks fit an `int`, the
-- manifest that is sent for it ends with the segment that its packets name as the last one.
pub file_manifest-end :
    (name file : Text) (size : ℕ)
    → 0 < size
    → length file / size < 2 ^ 31
    → 0 < length file % size
    → (file_manifest name file size).end_block_id ≡ chunk_size file size
unfolding file_manifest make to_i32
file_manifest-end name file size positive fits rest =
    ground arith ∙ sym (chunk_size_lem file size fits)

pub put_nothing :
    (file : Text) (size : ℕ) → length file % size ≡ 0 → put_file_prepare_next_data file size ≡ []
unfolding put_file_prepare_next_data
put_nothing file size e = prepare-first file size _ e
