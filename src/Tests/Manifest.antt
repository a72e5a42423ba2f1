-- ===== src/Tests/Manifest.antt =====
-- Manifests and their documents.
use difs.Prelude.{codes, ◌≡◌, [], ◌∷◌, some}
use difs.Prelude.Int.{pos}
use difs.Manifest.{Manifest, to_json, from_json}
use difs.Manifest.Documents.{from_json-to_json}
use difs.Examples.Libraries.{manifest_json, words}

abbrev file : Manifest
file = record {
  name = codes "/a";
  hash = codes "aa";
  repos = record { name = codes "/n1"; start = pos 0; end = pos 2 } ∷ [];
  start_block_id = pos 0;
  end_block_id = pos 2;
}

from_json-to_json_example :
    from_json manifest_json (to_json words manifest_json file) ≡ some (record file { hash = [] })
from_json-to_json_example = from_json-to_json words manifest_json file
