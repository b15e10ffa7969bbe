-- ===== src/Tests/Hooks.antt =====
-- Runs of the hooked calls, on a system that answers from a list.
use server_frame.Prelude.{
  ℕ, List, [], ◌∷◌, length, some, none, true, false, pos, ◌≡◌, ◌<◌, arith, ◌-◌, ◌^◌,
}
use server_frame.Base.FdManager.{FdContext, FdContextManager, get_timeout}
use server_frame.Hook.{Host, Reply, returns, fails, do_io, context_of, set_flags, get_flags}
use server_frame.Hook.Waiting.{IsSettling, Serves, do_io-Serves}
use server_frame.Hook.Flags.{Given, get_flags-set_flags}

abbrev answer : List Reply → Reply × List Reply
answer [] = (returns 0, [])
answer (r ∷ rs) = (r, rs)

abbrev host : Host (List Reply)
host = record {
  call = answer;
  add_timer = λ to s. (0, s);
  cancel_timer = λ timer s. s;
  add_event = λ s. (none, s);
  cancel_event = λ s. s;
  yield = λ s. (false, s);
  resume = λ s. s;
}

shorter : (e : ℕ) (s : List Reply) → (answer s).0 ≡ fails e → length (answer s).1 < length s
shorter e [] h = absurd (cc)
shorter e (r ∷ rs) h = omega arith

host-IsSettling : IsSettling host length
host-IsSettling = record {
  interrupted = shorter 4;
  blocked = shorter 11;
  timer_added = λ to s. omega arith;
  timer_stopped = λ timer s. omega arith;
  event_added = λ s. omega arith;
  yielded = λ s. omega arith;
}

abbrev connection : FdContext
connection = record {
  is_init = true;
  is_socket = true;
  is_sys_nonblock = true;
  is_user_nonblock = false;
  is_closed = false;
  fd = 7;
  recv_timeout = 1000;
  send_timeout = 2 ^ 64 - 1;
}

abbrev answers : List Reply
answers = fails 4 ∷ fails 11 ∷ fails 4 ∷ returns 12 ∷ []

-- A read that is interrupted and waits once.
do_io-Serves_example :
    Serves host length true
      (some connection)
      (get_timeout true)
      answers
      (do_io host 6 true (some connection) (get_timeout true) answers)
do_io-Serves_example =
    do_io-Serves host length host-IsSettling 6 true (some connection) (get_timeout true) answers
      (omega arith)

abbrev one_socket : FdContextManager
one_socket = record { datas = some 0 ∷ []; objects = λ a. connection; fresh = 1 }

-- The program makes its socket non-blocking.
get_flags-set_flags_example :
    (get_flags (pos 0) (set_flags (pos 0) 2050 one_socket).0 (set_flags (pos 0) 2050 one_socket).1
      ≡ 2050)
    × Given (context_of (pos 0) one_socket) 2050 (set_flags (pos 0) 2050 one_socket).0
get_flags-set_flags_example = get_flags-set_flags (pos 0) 2050 one_socket
