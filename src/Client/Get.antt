-- ===== src/Client/Get.antt =====
-- A file that is fetched: the manifest that a node sends, and the fetcher that is started for it.
use difs.Prelude.{Text, ℕ, ◌≡◌, ◌≢◌, refl, false, List, [], ◌∷◌, is_nil}
use difs.Json.{JsonCodec}
use difs.Manifest.{Manifest, Repo, ManifestDoc, manifest_doc, to_json}
use difs.Manifest.Documents.{from_json-to_json}
use difs.Client.Commands.{Difs, Outcome, done, threw, fetched}
use difs.Client.Callbacks.{on_get_command_response, fetch}

is_nil-false : (t : Text) → t ≢ [] → is_nil t ≡ false
is_nil-false [] h = absurd (h refl)
is_nil-false (c ∷ t) h = refl

module _ (append_segment : Text → ℕ → Text) (sha1 : Text → ℕ → ℕ)
    (json : JsonCodec ManifestDoc) where
  -- The answer to a request for a file is the JSON of a manifest: if the manifest lists a
  -- repository, the client keeps the text and fetches the segments of the manifest's name from the
  -- first of them, beginning with the segment 0; if it lists none, an exception leaves the callback.
  pub on_get_command_response-to_json :
      (m : Manifest) (d : Difs)
      → on_get_command_response append_segment json (to_json sha1 json m) d
        ≡ (elim m.repos as (λ _. Outcome) [
          | [] ↦ threw (record d { manifest = to_json sha1 json m })
          | r ∷ rs ↦
              done
                (record d { manifest = to_json sha1 json m })
                (fetched (append_segment m.name 0) r.name ∷ [])
        ])
  unfolding on_get_command_response fetch to_json
  on_get_command_response-to_json m d = split m.repos refl
    where
      some_text : is_nil (to_json sha1 json m) ≡ false
      some_text = is_nil-false (to_json sha1 json m) (json.write-ne-nil (manifest_doc sha1 m))

      split :
          (l : List Repo)
          → m.repos ≡ l
          → on_get_command_response append_segment json (to_json sha1 json m) d
            ≡ (elim m.repos as (λ _. Outcome) [
              | [] ↦ threw (record d { manifest = to_json sha1 json m })
              | r ∷ rs ↦
                  done
                    (record d { manifest = to_json sha1 json m })
                    (fetched (append_segment m.name 0) r.name ∷ [])
            ])
      split [] e = simp (some_text, from_json-to_json sha1 json m, e)
      split (r ∷ rs) e = simp (some_text, from_json-to_json sha1 json m, e)
