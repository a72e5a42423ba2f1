-- ===== src/Command/Response/RoundTrip.antt =====
-- A reply decodes from its own encoding, and what a change of the status code does to it.
use difs.Prelude.{
  Text, ℕ, ◌%◌, ◌^◌, ◌<◌, ◌≡◌, refl, ◌∙◌, List, [], ◌∷◌, Option, none, some, length, arith,
}
use difs.Tlv.{Tlv, Encoder, close_block}
use difs.Tlv.Fields.{
  Field, present, Distinct, find-present, map_option, Writes, prepend_integer-Writes, start-Writes,
  close_block-bytes,
}
use difs.Command.Parameter.RoundTrip.{IsWord}
use difs.Command.Response.{
  RepoCommandResponse, set_code, encode_fields, encode, wire_encode, wire_decode, decode_elements,
  take_integer,
}

-- The integers are 64-bit words.
pub record HasWords (r : RepoCommandResponse) : Type 0 where
  pub start : IsWord r.start_block_id
  pub end : IsWord r.end_block_id
  pub process : IsWord r.process_id
  pub insert : IsWord r.insert_num
  pub delete : IsWord r.delete_num

module _ (T : Tlv) where
  abbrev fields : ℕ → RepoCommandResponse → List Field
  fields code r =
      (206, map_option T.nonneg r.process_id)
      ∷ (208, some (T.nonneg code))
      ∷ (204, map_option T.nonneg r.start_block_id)
      ∷ (205, map_option T.nonneg r.end_block_id)
      ∷ (209, map_option T.nonneg r.insert_num)
      ∷ (210, map_option T.nonneg r.delete_num)
      ∷ []

  fields-Distinct : (code : ℕ) (r : RepoCommandResponse) → Distinct (fields code r)
  fields-Distinct code r = ground arith

  encode_fields-Writes :
      (code : ℕ) (r : RepoCommandResponse) → Writes T (encode_fields T code r) (fields code r)
  unfolding encode_fields
  encode_fields-Writes code r = prepend_integer-Writes T 206 r.process_id _ _ (
      prepend_integer-Writes T 208 (some code) _ _ (
        prepend_integer-Writes T 204 r.start_block_id _ _ (
          prepend_integer-Writes T 205 r.end_block_id _ _ (
            prepend_integer-Writes T 209 r.insert_num _ _
              (prepend_integer-Writes T 210 r.delete_num _ _ (start-Writes T))))))

  took_integer : (o : Option ℕ) → IsWord o → take_integer T (map_option T.nonneg o) ≡ some o
  took_integer none w = refl
  took_integer (some n) w = rw (T.read-nonneg n w)

  decode_fields :
      (code : ℕ) (r q : RepoCommandResponse)
      → code < 2 ^ 32
      → HasWords r
      → decode_elements T (present (fields code r)) q
        ≡ some (record r { code = some code; text = q.text; body = q.body; wire = q.wire })
  unfolding decode_elements
  decode_fields code r q small w =
      let sees = λ (t : ℕ). find-present t (fields code r) (fields-Distinct code r) in
      let word : code % 2 ^ 32 ≡ code = omega arith in
      rw (sees 204, took_integer r.start_block_id w.start)
        (rw (sees 205, took_integer r.end_block_id w.end)
          (rw (sees 206, took_integer r.process_id w.process)
            (rw (sees 208, took_integer (some code) (omega arith))
              (rw (sees 209, took_integer r.insert_num w.insert)
                (rw (sees 210, took_integer r.delete_num w.delete) (rw word))))))

  -- A reply with a 32-bit status code, whose other numbers are 64-bit words, decodes to the same
  -- reply, but for the text and the body; the bytes that the encoder counts are those that it
  -- wrote.
  pub wire_decode-encode :
      (code : ℕ) (r q : RepoCommandResponse)
      → r.code ≡ some code
      → code < 2 ^ 32
      → HasWords r
      → (e : Encoder) × (encode T r ≡ some e)
        × (e.total ≡ length e.buffer)
        × (wire_decode T e.buffer q
            ≡ some (record r { text = q.text; body = q.body; wire = some e.buffer }))
  unfolding encode wire_decode
  wire_decode-encode code r q has small w =
      let closed =
        close_block-bytes T 207 (encode_fields T code r) (fields code r)
          (encode_fields-Writes code r) in
      (
        close_block T 207 (encode_fields T code r),
        rw has,
        closed.1,
        rw (closed.0, T.parse-block 207 (present (fields code r)))
            (decode_fields code r (record q { wire = some _ }) small w ∙ rw has),
      )

  -- Once a reply has been encoded, a new status code does not reach the wire: `setCode` leaves the
  -- cache of this class as it is, so encoding again gives the bytes with the old code.
  pub set_code-wire_encode :
      (r r' : RepoCommandResponse) (w : Text) (c : ℕ)
      → wire_encode T r ≡ some (w, r')
      → wire_encode T (set_code c r') ≡ some (w, set_code c r')
  unfolding wire_encode set_code
  set_code-wire_encode r r' w c h = ground arith
