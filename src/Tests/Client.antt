-- ===== src/Tests/Client.antt =====
-- Files of a few bytes in blocks of two.
use difs.Prelude.{ℕ, ◌≡◌, refl, true, List, [], ◌∷◌, some, arith}
use difs.Prelude.Int.{pos, ◌-ℤ◌, to_i32}
use difs.Client.{
  Segment, put_file_prepare_next_data, on_put_file_interest, packet, undefined, read_chunk,
  last_data_size,
}
use difs.Client.Served.{on_put_file_interest-served, put-whole_blocks}

abbrev five : List ℕ
five = 10 ∷ 11 ∷ 12 ∷ 13 ∷ 14 ∷ []

abbrev four : List ℕ
four = 10 ∷ 11 ∷ 12 ∷ 13 ∷ []

five_cut :
    put_file_prepare_next_data five 2
    ≡ record { number = pos 0; content = 10 ∷ 11 ∷ []; final_block = pos 2 }
      ∷ record { number = pos 1; content = 12 ∷ 13 ∷ []; final_block = pos 2 }
      ∷ record { number = pos 2; content = 14 ∷ []; final_block = pos 2 }
      ∷ []
unfolding put_file_prepare_next_data ◌-ℤ◌ to_i32 read_chunk last_data_size
five_cut = refl

on_put_file_interest-served_example :
    (s : Segment) × (on_put_file_interest (λ _. true) (put_file_prepare_next_data five 2) (some 1)
      ≡ packet s)
    × (s.number ≡ pos 1)
on_put_file_interest-served_example =
    on_put_file_interest-served (λ _. true) five 2 1 (omega arith) (omega arith) (omega arith)
      (omega arith)

put-whole_blocks_example :
    (put_file_prepare_next_data four 2 ≡ [])
    × (on_put_file_interest (λ _. true) (put_file_prepare_next_data four 2) (some 0) ≡ undefined)
put-whole_blocks_example = put-whole_blocks (λ _. true) four 2 0 (omega arith) refl
