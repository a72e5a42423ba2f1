-- ===== src/Storage.antt =====
-- src/storage/storage.hpp: the abstract class `Storage`, with the contract that the repository
-- relies on. `Storage.Fs` and `Storage.Mongo` are its two implementations.
pub mod Disk
pub mod Fs
pub mod Mongo
pub mod RepoStorage
use difs.Prelude.{
  Text, text_eq, ℕ, ◌+◌, ◌*◌, ◌%◌, ◌^◌, ◌≡◌, List, [], ◌∷◌, Bool, true, false, Option, none, some,
  if◌then◌else◌,
}
use difs.Prelude.Int.{ℤ, to_i64}
use difs.Json.{JsonCodec}
use difs.Manifest.{Manifest, ManifestDoc, get_hash, to_json, from_json}

-- What the storages take from ndn-cxx and Boost: packets and their wire format, SHA-1, and JSON.
-- A name stands for the URI text that `toUri` prints, and a packet decodes to what was encoded.
pub record Libs : Type 1 where
  pub Data : Type 0
  pub get_name : Data → Text
  pub get_full_name : Data → Text
  pub wire_encode : Data → Text
  -- `none` is a decoding error.
  pub wire_decode : Text → Option Data
  pub decode-encode : (d : Data) → wire_decode (wire_encode d) ≡ some d
  -- The hexadecimal SHA-1 of `boost::compute`, and the words of that of `boost::uuids`.
  pub sha1_hash : Text → Text
  pub sha1 : Text → ℕ → ℕ
  pub json : JsonCodec ManifestDoc

-- The result of a read: `nullptr`, an exception while decoding, or the object.
pub data Loaded {ℓ} (A : Type ℓ) : Type ℓ where
  missing broken : Loaded A
  found : A → Loaded A

abbrev pub loaded {ℓ} : {A : Type ℓ} → Option A → Loaded A
loaded none = broken
loaded (some a) = found a

abbrev pub is_there {ℓ} : {A : Type ℓ} → Loaded A → Bool
is_there missing = false
is_there broken = true
is_there (found a) = true

-- The loop of `hash`, in 64-bit words.
unfoldable pub hash_bytes : ℕ → Text → ℕ
hash_bytes result [] = result
hash_bytes result (c ∷ t) = hash_bytes ((127 * result + c) % 2 ^ 64) t

-- `hash`: the identifier that `insert` returns.
unfoldable pub hash_id : Text → ℤ
hash_id key = to_i64 (hash_bytes 12345 key)

-- The pure virtual functions; a state is what stands behind `this`.
pub record Storage (L : Libs) : Type 1 where
  pub State : Type 0
  pub insert : L.Data → State → ℤ × State
  pub insert_manifest : Manifest → State → Text × State
  pub erase : Text → State → Bool × State
  pub erase_manifest : Text → State → Bool × State
  pub read : Text → State → Loaded L.Data
  pub read_manifest : Text → State → Loaded Manifest
  pub has : Text → State → Bool
  pub has_manifest : Text → State → Bool

-- Whether two names share a slot: data is kept under the SHA-1 of its name.
abbrev pub same_key : Libs → Text → Text → Bool
same_key L a b = text_eq (L.sha1_hash a) (L.sha1_hash b)

-- What a manifest reads back as.
abbrev pub stored : Libs → Manifest → Loaded Manifest
stored L m = loaded (from_json L.json (to_json L.sha1 L.json m))

-- The contract: two maps that do not touch one another, data by the SHA-1 of a name and manifests
-- by hash, on the states that `Valid` holds of.
pub record Contract (L : Libs) (S : Storage L) (Valid : S.State → Type 0) : Type 0 where
  pub insert-Valid : (d : L.Data) (s : S.State) → Valid s → Valid (S.insert d s).1
  pub insert_manifest-Valid :
      (m : Manifest) (s : S.State) → Valid s → Valid (S.insert_manifest m s).1
  pub erase-Valid : (n : Text) (s : S.State) → Valid s → Valid (S.erase n s).1
  pub erase_manifest-Valid : (h : Text) (s : S.State) → Valid s → Valid (S.erase_manifest h s).1
  pub read-insert :
      (d : L.Data) (n : Text) (s : S.State)
      → Valid s
      → S.read n (S.insert d s).1 ≡ (if same_key L (L.get_name d) n then found d else S.read n s)
  pub read-insert_manifest :
      (m : Manifest) (n : Text) (s : S.State)
      → Valid s
      → S.read n (S.insert_manifest m s).1 ≡ S.read n s
  pub read-erase :
      (x n : Text) (s : S.State)
      → Valid s
      → S.read n (S.erase x s).1 ≡ (if same_key L x n then missing else S.read n s)
  pub read-erase_manifest :
      (h n : Text) (s : S.State) → Valid s → S.read n (S.erase_manifest h s).1 ≡ S.read n s
  pub read_manifest-insert :
      (d : L.Data) (h : Text) (s : S.State)
      → Valid s
      → S.read_manifest h (S.insert d s).1 ≡ S.read_manifest h s
  pub read_manifest-insert_manifest :
      (m : Manifest) (h : Text) (s : S.State)
      → Valid s
      → S.read_manifest h (S.insert_manifest m s).1
        ≡ (if text_eq (get_hash L.sha1 m) h then stored L m else S.read_manifest h s)
  pub read_manifest-erase :
      (x h : Text) (s : S.State) → Valid s → S.read_manifest h (S.erase x s).1 ≡ S.read_manifest h s
  pub read_manifest-erase_manifest :
      (x h : Text) (s : S.State)
      → Valid s
      → S.read_manifest h (S.erase_manifest x s).1
        ≡ (if text_eq x h then missing else S.read_manifest h s)
  pub has-read : (n : Text) (s : S.State) → Valid s → S.has n s ≡ is_there (S.read n s)
  pub has_manifest-read :
      (h : Text) (s : S.State) → Valid s → S.has_manifest h s ≡ is_there (S.read_manifest h s)
  -- What the calls return.
  pub insert-result : (d : L.Data) (s : S.State) → (S.insert d s).0 ≡ hash_id (L.get_name d)
  pub insert_manifest-result :
      (m : Manifest) (s : S.State) → (S.insert_manifest m s).0 ≡ get_hash L.sha1 m
  pub erase-result : (n : Text) (s : S.State) → Valid s → (S.erase n s).0 ≡ S.has n s
  pub erase_manifest-result :
      (h : Text) (s : S.State) → Valid s → (S.erase_manifest h s).0 ≡ S.has_manifest h s
