-- ===== src/InfoHandle.antt =====
-- src/handles/info-handle.cpp: what a node tells of itself. The values of `statvfs` and `sysinfo`
-- are arguments.
pub mod Listed
use difs.Prelude.{Text, codes, ◌++◌, ℕ, ◌+◌, ◌*◌, ◌/◌, ◌%◌, ◌^◌, List, Option, none, some}
use difs.Prelude.Int.{ℤ, pos, negsuc, sub_ℕ, to_i64}
use difs.Json.{JsonCodec, ◌>>=◌}

-- The members that are read: 64-bit words.
pub record System : Type 0 where
  pub f_blocks : ℕ
  pub f_bavail : ℕ
  pub f_bsize : ℕ
  pub totalram : ℕ
  pub freeram : ℕ

-- The document; the sizes and usages stand under "disk" in "disk" and "memory" in "memory".
pub record InfoReply : Type 0 where
  pub name : Text
  pub disk_size : ℕ
  pub disk_usage : ℕ
  pub memory_size : ℤ
  pub memory_usage : ℤ
  pub datas : List Text
  pub manifests : List Text

-- `(long long)blocks * sv.f_bsize / 1024`: the product and the quotient are unsigned.
unfoldable pub disk_kib : ℕ → ℕ → ℕ
disk_kib blocks size = (blocks * size % 2 ^ 64) / 1024

-- `(long long)ram / 1024`, which rounds towards zero.
abbrev kib : ℤ → ℤ
kib (pos n) = pos (n / 1024)
kib (negsuc n) = sub_ℕ 0 ((n + 1) / 1024)

unfoldable pub memory_kib : ℕ → ℤ
unfolding to_i64
memory_kib ram = kib (to_i64 ram)

unfoldable pub info_reply : System → Text → List Text → List Text → InfoReply
unfolding disk_kib memory_kib
info_reply sys prefix datas manifests = record {
  name = prefix;
  disk_size = disk_kib sys.f_blocks sys.f_bsize;
  disk_usage = disk_kib sys.f_bavail sys.f_bsize;
  memory_size = memory_kib sys.totalram;
  memory_usage = memory_kib sys.freeram;
  datas = datas;
  manifests = manifests;
}

-- The filter of the constructor, which the handler gets as its prefix.
unfoldable pub info_filter : Text → Text
info_filter repo_prefix = repo_prefix ++ codes "/info"

-- `handleInfoCommand`, with what `readDatas` and `readManifests` return; `none` is an exception of
-- theirs, and nothing is replied.
unfoldable pub handle_info_command :
    JsonCodec InfoReply → System → Text → Option (List Text) → Option (List Text) → Option Text
unfolding info_reply
handle_info_command json sys prefix read_datas read_manifests = do
  datas ← read_datas
  manifests ← read_manifests
  some (json.write_json (info_reply sys prefix datas manifests))
