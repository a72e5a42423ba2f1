-- ===== src/InfoHandle/Listed.antt =====
-- The information of src/handles/info-handle.cpp at a node with src/storage/mongodb-storage.cpp.
use difs.Prelude.{Text, codes, ◌++◌, among, ◌≡◌, refl, some, All}
use difs.Json.{JsonCodec}
use difs.Storage.{Libs}
use difs.Storage.Mongo.{Driver, Db, has, has_manifest}
use difs.Storage.Mongo.Listing.{
  Cursor, read_datas, read_manifests, IsOwn, IsOwnPacket, names_key, read_datas-lists,
  read_manifests-lists_own,
}
use difs.Storage.Mongo.Refines.{Keyed}
use difs.InfoHandle.{System, InfoReply, info_reply, info_filter, handle_info_command}

module _ (L : Libs) (D : Driver) (I : Cursor D) (json : JsonCodec InfoReply) where
  -- Where no key has two documents and every document reads as what its key says, the command is
  -- answered: the answer reads as a document whose name is the node's prefix with `/info` after it,
  -- and which lists a manifest exactly if the node has it, and a packet exactly if the node has it,
  -- up to the SHA-1 of names.
  pub handle_info_command-lists :
      (sys : System) (repo_prefix : Text) (db : Db L D)
      → Keyed L D db
      → All (IsOwnPacket L D I) (I.find db.data_coll)
      → All (IsOwn L D I) (I.find db.manifest_coll)
      → (answer : Text) × (handle_info_command json sys
            (info_filter repo_prefix)
            (read_datas L D I db)
            (read_manifests L D I db)
          ≡ some answer)
        × (reply : InfoReply) × (json.read_json answer ≡ some reply)
        × (reply.name ≡ repo_prefix ++ codes "/info")
        × ((x : Text) → names_key L D I x reply.datas ≡ has L D x db)
        × ((x : Text) → among x reply.manifests ≡ has_manifest L D x db)
  unfolding handle_info_command info_reply info_filter
  handle_info_command-lists sys repo_prefix db v datas manifests =
      let (names, runs, lists) = read_datas-lists L D I db v datas in
      let (hashes, runs', lists') = read_manifests-lists_own L D I db v manifests in
      let reply = info_reply sys (info_filter repo_prefix) names hashes in
      (
        json.write_json reply,
        rw (runs, runs') refl,
        reply,
        json.read-write reply,
        refl,
        lists,
        lists',
      )
