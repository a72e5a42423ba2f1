-- ===== src/DeleteHandle/Replies.antt =====
-- The replies of src/handles/delete-handle.cpp to a command with the number of a process.
use difs.Prelude.{ℕ, ◌≡◌, refl, some}
use difs.Tlv.{Tlv}
use difs.Command.Parameter.{RepoCommandParameter}
use difs.Command.Response.{
  RepoCommandResponse, make, set_body, set_process_id, set_delete_num, set_code, wire_encode,
  encode,
}
use difs.DeleteHandle.{positive_reply}

-- A reply with the code 200, for a process, that counts what was deleted.
abbrev pub Success : ℕ → ℕ → RepoCommandResponse → Type 0
Success q deleted r = (r.code ≡ some 200) × (r.process_id ≡ some q) × (r.delete_num ≡ some deleted)

module _ (T : Tlv) where
  pub positive_reply-Success :
      (p : RepoCommandParameter) (q deleted : ℕ)
      → p.process_id ≡ some q
      → Success q deleted (positive_reply T p 200 deleted)
  unfolding positive_reply make set_body set_process_id set_delete_num set_code wire_encode encode
  positive_reply-Success p q deleted f = (rw f refl, rw f refl, rw f refl)
