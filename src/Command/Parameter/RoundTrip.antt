-- ===== src/Command/Parameter/RoundTrip.antt =====
-- A command parameter decodes from its own encoding.
use difs.Prelude.{Text, ℕ, ◌^◌, ◌<◌, ◌≡◌, refl, List, [], ◌∷◌, Option, none, some, length, arith}
use difs.Tlv.{Element, Tlv, block_bytes}
use difs.Tlv.Fields.{
  Field, present, Distinct, find-present, map_option, field_bytes, Writes, prepend_integer-Writes,
  prepend_block-Writes, prepend_wrapped-Writes, start-Writes, close_block-bytes,
}
use difs.Command.Parameter.{
  RepoCommandParameter, empty, encode_fields, encode, wire_encode, wire_decode, decode_elements,
  take_name, take_from, take_to, take_hint, take_start, take_end, take_process, take_lifetime,
  take_cluster,
}

-- The three blocks have the types that `makeBinaryBlock` gives them.
pub record HasBlockTypes (p : RepoCommandParameter) : Type 0 where
  pub from : (b : Element) → p.from ≡ some b → b.type ≡ 202
  pub to : (b : Element) → p.to ≡ some b → b.type ≡ 203
  pub cluster : (b : Element) → p.cluster_prefix ≡ some b → b.type ≡ 211

-- The integers are 64-bit words.
abbrev pub IsWord : Option ℕ → Type 0
IsWord none = Unit
IsWord (some n) = n < 2 ^ 64

pub record HasWords (p : RepoCommandParameter) : Type 0 where
  pub start : IsWord p.start_block_id
  pub end : IsWord p.end_block_id
  pub process : IsWord p.process_id
  pub lifetime : IsWord p.interest_lifetime

module _ (T : Tlv) where
  abbrev fields : RepoCommandParameter → List Field
  fields p =
      (30, map_option T.hint_value p.node_prefix)
      ∷ (203, map_option (λ b. b.value) p.to)
      ∷ (202, map_option (λ b. b.value) p.from)
      ∷ (7, map_option T.name_value p.name)
      ∷ (12, map_option T.nonneg p.interest_lifetime)
      ∷ (204, map_option T.nonneg p.start_block_id)
      ∷ (205, map_option T.nonneg p.end_block_id)
      ∷ (206, map_option T.nonneg p.process_id)
      ∷ (211, map_option (λ b. b.value) p.cluster_prefix)
      ∷ []

  fields-Distinct : (p : RepoCommandParameter) → Distinct (fields p)
  fields-Distinct p = ground arith

  encode_fields-Writes :
      (p : RepoCommandParameter) → HasBlockTypes p → Writes T (encode_fields T p) (fields p)
  unfolding encode_fields
  encode_fields-Writes p b = prepend_wrapped-Writes T 30 T.hint_value p.node_prefix _ _ (
      prepend_block-Writes T 203 p.to _ _ b.to (
        prepend_block-Writes T 202 p.from _ _ b.from (
          prepend_wrapped-Writes T 7 T.name_value p.name _ _ (
            prepend_integer-Writes T 12 p.interest_lifetime _ _ (
              prepend_integer-Writes T 204 p.start_block_id _ _ (
                prepend_integer-Writes T 205 p.end_block_id _ _ (
                  prepend_integer-Writes T 206 p.process_id _ _ (
                    prepend_block-Writes T 211 p.cluster_prefix _ _ b.cluster
                      (start-Writes T)))))))))

  -- What the encoder writes is one block of the fields that are there, and the length that it has
  -- counted is the size of what it has written.
  pub encode-bytes :
      (p : RepoCommandParameter)
      → HasBlockTypes p
      → ((encode T p).buffer ≡ block_bytes T.var_number 201 (field_bytes T (fields p)))
        × ((encode T p).total ≡ length (encode T p).buffer)
  unfolding encode
  encode-bytes p b =
      close_block-bytes T 201 (encode_fields T p) (fields p) (encode_fields-Writes p b)

  took_name :
      (o : Option Text) (q : RepoCommandParameter)
      → q.name ≡ none
      → take_name T (map_option T.name_value o) q ≡ some (record q { name = o })
  took_name none q e = ground arith
  took_name (some n) q e = rw (T.read-name n)

  took_hint :
      (o : Option Text) (q : RepoCommandParameter)
      → q.node_prefix ≡ none
      → take_hint T (map_option T.hint_value o) q ≡ some (record q { node_prefix = o })
  took_hint none q e = ground arith
  took_hint (some n) q e = rw (T.read-hint n)

  took_from :
      (o : Option Element) (q : RepoCommandParameter)
      → q.from ≡ none
      → ((b : Element) → o ≡ some b → b.type ≡ 202)
      → take_from T (map_option (λ b. b.value) o) q ≡ some (record q { from = o })
  took_from none q e typed = ground arith
  took_from (some b) q e typed = ground (arith, typed b)

  took_to :
      (o : Option Element) (q : RepoCommandParameter)
      → q.to ≡ none
      → ((b : Element) → o ≡ some b → b.type ≡ 203)
      → take_to T (map_option (λ b. b.value) o) q ≡ some (record q { to = o })
  took_to none q e typed = ground arith
  took_to (some b) q e typed = ground (arith, typed b)

  took_cluster :
      (o : Option Element) (q : RepoCommandParameter)
      → q.cluster_prefix ≡ none
      → ((b : Element) → o ≡ some b → b.type ≡ 211)
      → take_cluster T (map_option (λ b. b.value) o) q ≡ some (record q { cluster_prefix = o })
  took_cluster none q e typed = ground arith
  took_cluster (some b) q e typed = ground (arith, typed b)

  took_start :
      (o : Option ℕ) (q : RepoCommandParameter)
      → q.start_block_id ≡ none
      → IsWord o
      → take_start T (map_option T.nonneg o) q ≡ some (record q { start_block_id = o })
  took_start none q e w = ground arith
  took_start (some n) q e w = rw (T.read-nonneg n w)

  took_end :
      (o : Option ℕ) (q : RepoCommandParameter)
      → q.end_block_id ≡ none
      → IsWord o
      → take_end T (map_option T.nonneg o) q ≡ some (record q { end_block_id = o })
  took_end none q e w = ground arith
  took_end (some n) q e w = rw (T.read-nonneg n w)

  took_process :
      (o : Option ℕ) (q : RepoCommandParameter)
      → q.process_id ≡ none
      → IsWord o
      → take_process T (map_option T.nonneg o) q ≡ some (record q { process_id = o })
  took_process none q e w = ground arith
  took_process (some n) q e w = rw (T.read-nonneg n w)

  took_lifetime :
      (o : Option ℕ) (q : RepoCommandParameter)
      → q.interest_lifetime ≡ none
      → IsWord o
      → take_lifetime T (map_option T.nonneg o) q ≡ some (record q { interest_lifetime = o })
  took_lifetime none q e w = ground arith
  took_lifetime (some n) q e w = rw (T.read-nonneg n w)

  decode_fields :
      (p : RepoCommandParameter) (wire : Option Text)
      → HasBlockTypes p
      → HasWords p
      → decode_elements T (present (fields p)) (record empty { wire = wire })
        ≡ some (record p { wire = wire })
  unfolding decode_elements
  decode_fields p wire b w =
      let sees = λ (t : ℕ). find-present t (fields p) (fields-Distinct p) in
      let q0 : RepoCommandParameter = record empty { wire = wire } in
      let q1 : RepoCommandParameter = record q0 { name = p.name } in
      let q2 : RepoCommandParameter = record q1 { from = p.from } in
      let q3 : RepoCommandParameter = record q2 { to = p.to } in
      let q4 : RepoCommandParameter = record q3 { node_prefix = p.node_prefix } in
      let q5 : RepoCommandParameter = record q4 { start_block_id = p.start_block_id } in
      let q6 : RepoCommandParameter = record q5 { end_block_id = p.end_block_id } in
      let q7 : RepoCommandParameter = record q6 { process_id = p.process_id } in
      let q8 : RepoCommandParameter = record q7 { interest_lifetime = p.interest_lifetime } in
      let q9 : RepoCommandParameter = record q8 { cluster_prefix = p.cluster_prefix } in
      rw (sees 7, took_name p.name q0 refl)
        (rw (sees 202, took_from p.from q1 refl b.from)
          (rw (sees 203, took_to p.to q2 refl b.to)
            (rw (sees 30, took_hint p.node_prefix q3 refl)
              (rw (sees 204, took_start p.start_block_id q4 refl w.start)
                (rw (sees 205, took_end p.end_block_id q5 refl w.end)
                  (rw (sees 206, took_process p.process_id q6 refl w.process)
                    (rw (sees 12, took_lifetime p.interest_lifetime q7 refl w.lifetime)
                      (rw (sees 211, took_cluster p.cluster_prefix q8 refl b.cluster) (refl)))))))))

  -- For a parameter whose blocks have their own types, whose integers are 64-bit words, and that
  -- has no wire yet, decoding what was encoded gives every field back, and nothing else.
  pub wire_decode-wire_encode :
      (p : RepoCommandParameter)
      → HasBlockTypes p
      → HasWords p
      → p.wire ≡ none
      → wire_decode T (wire_encode T p).0 empty ≡ some (wire_encode T p).1
  unfolding wire_decode wire_encode
  wire_decode-wire_encode p b w fresh =
      rw (fresh, (encode-bytes p b).0, T.parse-block 201 (present (fields p)))
        (decode_fields p _ b w)
