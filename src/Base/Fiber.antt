-- ===== src/Base/Fiber.antt =====
-- server_frame/base/fiber.h and fiber.cc: the states of a fiber. Its stack and its context are
-- ucontext's; `none` is an assertion that fails.
use server_frame.Prelude.{ℕ, Option, none, some, Bool, true, false, ◌&&◌, ◌||◌, if◌then◌else◌}

pub data State : Type 0 where
  k_init : State
  k_hold : State
  k_exec : State
  k_term : State
  k_ready : State
  k_except : State

-- `has_stack` tells a fiber with a callback from the main fiber of a thread.
pub record Fiber : Type 0 where
  pub state : State
  pub cb : Option ℕ
  pub has_stack : Bool

abbrev pub is_exec : State → Bool
is_exec k_init = false
is_exec k_hold = false
is_exec k_exec = true
is_exec k_term = false
is_exec k_ready = false
is_exec k_except = false

abbrev pub is_ready : State → Bool
is_ready k_init = false
is_ready k_hold = false
is_ready k_exec = false
is_ready k_term = false
is_ready k_ready = true
is_ready k_except = false

-- kTerm or kExcept.
abbrev pub is_over : State → Bool
is_over k_init = false
is_over k_hold = false
is_over k_exec = false
is_over k_term = true
is_over k_ready = false
is_over k_except = true

abbrev pub is_init : State → Bool
is_init k_init = true
is_init k_hold = false
is_init k_exec = false
is_init k_term = false
is_init k_ready = false
is_init k_except = false

-- The constructors: the main fiber of a thread, and a fiber with a callback.
abbrev pub main_fiber : Fiber
main_fiber = record { state = k_exec; cb = none; has_stack = false }

abbrev pub new_fiber : Option ℕ → Fiber
new_fiber cb = record { state = k_init; cb = cb; has_stack = true }

-- What the destructor asserts.
unfoldable pub may_destroy : Fiber → Bool
may_destroy f =
    if f.has_stack
    then is_over f.state || is_init f.state
    else elim f.cb [ none ↦ is_exec f.state | some c ↦ false ]

unfoldable pub reset : Option ℕ → Fiber → Option Fiber
reset cb f =
    if f.has_stack && (is_over f.state || is_init f.state)
    then some (record f { cb = cb; state = k_init })
    else none

unfoldable pub swap_in : Fiber → Option Fiber
swap_in f = if is_exec f.state then none else some (record f { state = k_exec })

unfoldable pub call : Fiber → Fiber
call f = record f { state = k_exec }

unfoldable pub yield_to_ready : Fiber → Option Fiber
yield_to_ready f = if is_exec f.state then some (record f { state = k_ready }) else none

unfoldable pub yield_to_hold : Fiber → Option Fiber
yield_to_hold f = if is_exec f.state then some (record f { state = k_hold }) else none

-- MainFunc and CallerMainFunc behind the callback, which has returned or has thrown.
unfoldable pub main_func : Bool → Fiber → Fiber
main_func threw f =
    if threw then record f { state = k_except } else record f { cb = none; state = k_term }

-- How the code that a fiber runs leaves it: by a yield, by its end, or by SwapOut alone.
pub data Exit : Type 0 where
  ready : Exit
  hold : Exit
  returned : Exit
  threw : Exit
  swapped : Exit

unfoldable pub leave : Exit → Fiber → Option Fiber
unfolding yield_to_ready yield_to_hold main_func
leave ready f = yield_to_ready f
leave hold f = yield_to_hold f
leave returned f = some (main_func false f)
leave threw f = some (main_func true f)
leave swapped f = some f
