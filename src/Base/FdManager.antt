-- ===== src/Base/FdManager.antt =====
-- server_frame/base/fd_manager.h and fd_manager.cc: the context of each file descriptor. A
-- FdContext::ptr is the address of its object in `objects`. `stat` is the answer of fstat: `none`
-- is -1, and `some` says whether the descriptor is a socket.
pub mod Table
pub mod Removal
use server_frame.Prelude.{
  ℕ, suc, ◌+◌, ◌-◌, ◌*◌, ◌/◌, ◌^◌, List, [], ◌∷◌, Option, none, some, Bool, true, false, not, ◌||◌,
  ltb, leb, ◌==◌, if◌then◌else◌, length, get_elem?, set, replicate, ℤ, pos, negsuc, zero,
}

pub record FdContext : Type 0 where
  pub is_init : Bool
  pub is_socket : Bool
  pub is_sys_nonblock : Bool
  pub is_user_nonblock : Bool
  pub is_closed : Bool
  pub fd : ℕ
  pub recv_timeout : ℕ
  pub send_timeout : ℕ

pub record FdContextManager : Type 0 where
  pub datas : List (Option ℕ)
  pub objects : ℕ → FdContext
  pub fresh : ℕ

-- FdContext::Init. For a socket it also makes the descriptor non-blocking, by fcntl.
pub init_context : Option Bool → FdContext → FdContext
init_context stat c =
    let socket : Bool = elim stat [ none ↦ false | some s ↦ s ] in
    let there : Bool = elim stat [ none ↦ false | some s ↦ true ] in
    if c.is_init then c else record c {
      recv_timeout = 2 ^ 64 - 1;
      send_timeout = 2 ^ 64 - 1;
      is_init = there;
      is_socket = socket;
      is_sys_nonblock = socket;
      is_user_nonblock = false;
      is_closed = false;
    }

-- The constructor of FdContext.
pub new_context : Option Bool → ℕ → FdContext
unfolding init_context
new_context stat n = init_context stat (record {
  is_init = false;
  is_socket = false;
  is_sys_nonblock = false;
  is_user_nonblock = false;
  is_closed = false;
  fd = n;
  recv_timeout = 2 ^ 64 - 1;
  send_timeout = 2 ^ 64 - 1;
})

-- SetTimeout and GetTimeout; `receiving` says that `type` is SO_RCVTIMEO.
pub set_timeout : Bool → ℕ → FdContext → FdContext
set_timeout receiving v c =
    if receiving then record c { recv_timeout = v } else record c { send_timeout = v }

pub get_timeout : Bool → FdContext → ℕ
get_timeout receiving c = if receiving then c.recv_timeout else c.send_timeout

pub init : (ℕ → FdContext) → FdContextManager
init objects = record { datas = replicate 64 none; objects = objects; fresh = 0 }

-- std::vector::resize.
pub resize : ℕ → List (Option ℕ) → List (Option ℕ)
resize zero xs = []
resize (suc n) [] = none ∷ resize n []
resize (suc n) (x ∷ xs) = x ∷ resize n xs

-- The part of Get under the write lock.
pub create : Option Bool → ℕ → FdContextManager → Option ℕ × FdContextManager
unfolding new_context resize
create stat n m =
    let made = new_context stat n in
    let room = if leb (length m.datas) n then resize (n * 3 / 2) m.datas else m.datas in
    (
      some m.fresh,
      record m {
        datas = set room n (some m.fresh);
        objects = λ a. if a == m.fresh then made else m.objects a;
        fresh = suc m.fresh;
      },
    )

unfoldable pub get : Option Bool → ℤ → Bool → FdContextManager → Option ℕ × FdContextManager
get stat (negsuc n) auto_create m = (none, m)
get stat (pos n) auto_create m =
    if leb (length m.datas) n
    then (if auto_create then create stat n m else (none, m))
    else elim (get_elem? m.datas n) [
      | none ↦ (none, m)
      | some entry ↦ elim entry [
        | some a ↦ (some a, m)
        | none ↦ if auto_create then create stat n m else (none, m)
      ]
    ]

-- Del; `none` is the access before the start of the vector.
pub del : ℤ → FdContextManager → Option FdContextManager
del (negsuc n) m = none
del (pos n) m = some (if leb (length m.datas) n then m else record m { datas = set m.datas n none })
