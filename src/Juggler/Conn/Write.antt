-- ===== src/Juggler/Conn/Write.antt =====
-- juggler/conn.go: `exclusiveWriter`; juggler/handler.go: `limitedWriter`, `writeMsg`, `doWrite`.
use exp.Base.{ℕ, Bool, false, Option, none, some, Text, codes, pos, ltb, length, if◌then◌else◌}
use exp.Juggler.Msg.{Msg}
use exp.Juggler.Msg.Create.{new_err}
use exp.Juggler.Conn.{Conn, wrote, logged, close, act, add_fn}

-- The errors that `doWrite` tells apart.
pub data WriteError : Type 0 where
  lock_timeout write_limit_exceeded : WriteError
  other_error : Text → WriteError

abbrev pub error_text : WriteError → Text
error_text lock_timeout = codes "juggler: timed out waiting for write lock"
error_text write_limit_exceeded = codes "write limit exceeded"
error_text (other_error e) = e

-- The JSON encoder, which writes the whole message at once; whether the write lock is had before
-- the timeout; the errors of `NextWriter` and of the write; and the UUID of an ERR message about one.
pub record Transport : Type 0 where
  pub encode : Msg → Option Text
  pub encode_error : Msg → Text
  pub gets_lock : Msg → Bool
  pub next_writer : Msg → Option Text
  pub write : Msg → Option Text
  pub fresh_uuid : Msg → Text

abbrev pub min_write_limit : ℕ
min_write_limit = 4096

-- `limitWriter`, then the test in `limitedWriter.Write` of the only write; no limit is 0.
unfoldable pub limit_exceeded : ℕ → Text → Bool
limit_exceeded limit b =
    let n = if ltb limit min_write_limit then min_write_limit else limit in
    if ltb 0 limit then ltb n (length b) else false

-- `exclusiveWriter.Write` on its first write, and `Close`, which gives the lock back.
unfoldable pub exclusive_write : Transport → Msg → Conn → Option WriteError × Conn
exclusive_write t m c =
    let written : Option WriteError × Conn = elim (t.next_writer m) [
      | some e ↦ (some (other_error e), c)
      | none ↦ elim (t.write m) [
        | some e ↦ (some (other_error e), c)
        | none ↦ (none, act (wrote m) c)
      ]
    ] in
    if t.gets_lock m then written else (some lock_timeout, c)

unfoldable pub write_msg : Transport → ℕ → Msg → Conn → Option WriteError × Conn
unfolding exclusive_write
write_msg t limit m c = elim (t.encode m) [
  | none ↦ (some (other_error (t.encode_error m)), c)
  | some b ↦
      if limit_exceeded limit b then (some write_limit_exceeded, c) else exclusive_write t m c
]

-- The error that closes a connection whose write lock was not had.
abbrev pub lock_error : Text
lock_error = codes "writeMsg failed: juggler: timed out waiting for write lock; closing connection"

-- The second write of `doWrite`, of the ERR message in place of one that is too large.
abbrev pub after_notice : Option WriteError × Conn → Conn
after_notice (none, c) = c
after_notice (some lock_timeout, c) = close lock_error (add_fn (codes "WriteLockTimeouts") c)
after_notice (some write_limit_exceeded, c) = act logged c
after_notice (some (other_error e), c) = act logged c

abbrev pub notice : Transport → Msg → Msg
notice t m = new_err (t.fresh_uuid m) m (pos 599) (error_text write_limit_exceeded)

abbrev pub after_write : Transport → ℕ → Msg → Option WriteError × Conn → Conn
after_write t limit m (none, c) = c
after_write t limit m (some lock_timeout, c) =
    close lock_error (add_fn (codes "WriteLockTimeouts") c)
after_write t limit m (some write_limit_exceeded, c) =
    after_notice
      (write_msg t limit (notice t m) (act logged (add_fn (codes "WriteLimitExceeded") c)))
after_write t limit m (some (other_error e), c) = act logged c

unfoldable pub do_write : Transport → ℕ → Msg → Conn → Conn
unfolding write_msg
do_write t limit m c = after_write t limit m (write_msg t limit m c)
