-- ===== src/Transfer/Checked.antt =====
-- A file that is put, seen from both sides: the client of lib/difs.cpp asks the node of
-- src/handles/write-handle.cpp again and again how many segments it has.
use difs.Tlv.{Tlv}
use difs.Manifest.{Manifest}
use difs.Storage.{Storage}
use difs.Client.Commands
use difs.Client.Retry
use difs.WriteHandle.{WriteHandle}
