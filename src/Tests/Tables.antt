-- ===== src/Tests/Tables.antt =====
-- Runs of the FdContextManager.
use server_frame.Prelude.{ℕ, some, true, false, pos}
use server_frame.Base.FdManager.{FdContext, FdContextManager, init, get}
use server_frame.Base.FdManager.Table.{Gets, get-Gets, init-IsValid}

abbrev blank : ℕ → FdContext
blank a = record {
  is_init = false;
  is_socket = false;
  is_sys_nonblock = false;
  is_user_nonblock = false;
  is_closed = false;
  fd = 0;
  recv_timeout = 0;
  send_timeout = 0;
}

abbrev fresh_table : FdContextManager
fresh_table = init blank

-- A socket beyond the table.
get-Gets_example : Gets (some true) 64 fresh_table (get (some true) (pos 64) true fresh_table)
get-Gets_example = get-Gets (some true) 64 fresh_table (init-IsValid blank)
