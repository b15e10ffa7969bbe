-- ===== src/Hook.antt =====
-- server_frame/hook.h and hook.cc: the system calls that wait by yielding, and the flags of
-- descriptors as the program sees them. `Host` is what a call uses of the system, of the
-- IOManager and of the fibers.
pub mod Blocking
pub mod Steps
pub mod Waiting
pub mod Flags
use server_frame.Prelude.{
  ℕ, zero, suc, ◌+◌, ◌-◌, ◌/◌, ◌%◌, ◌^◌, Option, none, some, Bool, true, false, not, ◌||◌, ◌==◌,
  if◌then◌else◌, ℤ,
}
use server_frame.Base.FdManager.{FdContext, FdContextManager, get}

-- What a call gives: a number that is not negative, or -1 and errno.
pub data Reply : Type 0 where
  returns : ℕ → Reply
  fails : ℕ → Reply

-- `call` is the system call with its arguments. `add_event` gives errno where AddEvent fails.
-- `yield` runs the others until the fiber is resumed, or until the timer calls back, which it
-- tells by `true`; `resume` runs them from there until the fiber is resumed.
pub record Host (S : Type 0) : Type 0 where
  pub call : S → Reply × S
  pub add_timer : ℕ → S → ℕ × S
  pub cancel_timer : ℕ → S → S
  pub add_event : S → Option ℕ × S
  pub cancel_event : S → S
  pub yield : S → Bool × S
  pub resume : S → S

abbrev pub unlimited : ℕ
unlimited = 2 ^ 64 - 1

abbrev pub eintr : ℕ
eintr = 4

abbrev pub ebadf : ℕ
ebadf = 9

abbrev pub eagain : ℕ
eagain = 11

abbrev pub etimedout : ℕ
etimedout = 110

pub is_error : ℕ → Reply → Bool
is_error e (returns n) = false
is_error e (fails errno) = errno == e

-- IsSocket and IsUserNonblock: whether a call goes straight to the system.
pub is_direct : FdContext → Bool
is_direct c = not c.is_socket || c.is_user_nonblock

module _ {S : Type 0} (host : Host S) where
  -- The first call and the loop on EINTR.
  pub call_again : ℕ → S → Option Reply × S
  unfolding is_error
  call_again zero s = (none, s)
  call_again (suc fuel) s =
      let (r, t) = host.call s in
      elim (is_error eintr r) [ true ↦ call_again fuel t | false ↦ (some r, t) ]

  pub start_timer : ℕ → S → Option ℕ × S
  start_timer to s =
      let (timer, t) = host.add_timer to s in if to == unlimited then (none, s) else (some timer, t)

  pub stop_timer : Option ℕ → S → S
  stop_timer none s = s
  stop_timer (some timer) s = host.cancel_timer timer s

  -- The callback of the timer, over `cancelled` of TimerInfo.
  pub on_timeout : ℕ → S → ℕ × S
  on_timeout cancelled s =
      if cancelled == 0 then (etimedout, host.cancel_event s) else (cancelled, s)

  -- YieldToHold, and what the timer does meanwhile.
  pub hold : Option ℕ → ℕ → S → ℕ × S
  unfolding on_timeout
  hold none cancelled s = (cancelled, (host.yield s).1)
  hold (some timer) cancelled s =
      let (called, t) = host.yield s in
      let (cancelled', u) = on_timeout cancelled t in
      if called then (cancelled', host.resume u) else (cancelled, t)

  -- From AddEvent to `return -1` or `goto retry`: what is returned, if something is.
  pub wait_event : Option ℕ → ℕ → S → Option Reply × ℕ × S
  unfolding stop_timer hold
  wait_event timer cancelled s =
      let (refused, t) = host.add_event s in
      elim refused [
        | some errno ↦ (some (fails errno), cancelled, stop_timer timer t)
        | none ↦
            let (cancelled', u) = hold timer cancelled t in
            let v = stop_timer timer u in
            if cancelled' == 0
            then (none, cancelled', v)
            else (some (fails cancelled'), cancelled', v)
      ]

  -- What is done at EAGAIN.
  pub await : ℕ → ℕ → S → Option Reply × ℕ × S
  unfolding start_timer wait_event
  await to cancelled s = let (timer, t) = start_timer to s in wait_event timer cancelled t

  -- From the label `retry` on.
  pub retry : ℕ → ℕ → ℕ → S → Option Reply × S
  unfolding call_again await is_error
  retry zero to cancelled s = (none, s)
  retry (suc fuel) to cancelled s =
      let (answer, t) = call_again fuel s in
      elim answer [
        | none ↦ (none, t)
        | some r ↦ elim (is_error eagain r) [
          | false ↦ (some r, t)
          | true ↦
              let (result, cancelled', u) = await to cancelled t in
              elim result [ none ↦ retry fuel to cancelled' u | some e ↦ (some e, u) ]
        ]
      ]

  once : S → Option Reply × S
  once s = let (r, t) = host.call s in (some r, t)

  -- DoIo; `ctx` is the context of the descriptor, and `none` in the result the end of the fuel.
  pub do_io : ℕ → Bool → Option FdContext → (FdContext → ℕ) → S → Option Reply × S
  unfolding is_direct once retry
  do_io fuel enabled ctx timeout s = elim enabled [
    | false ↦ once s
    | true ↦ elim ctx [
      | none ↦ once s
      | some c ↦ elim c.is_closed [
        | true ↦ (some (fails ebadf), s)
        | false ↦ elim (is_direct c) [ true ↦ once s | false ↦ retry fuel (timeout c) 0 s ]
      ]
    ]
  ]

-- O_NONBLOCK in the flags of a descriptor: the test, `| O_NONBLOCK` and `& ~O_NONBLOCK`.
pub has_nonblock : ℕ → Bool
has_nonblock flags = flags / 2048 % 2 == 1

pub with_nonblock : ℕ → ℕ
unfolding has_nonblock
with_nonblock flags = if has_nonblock flags then flags else flags + 2048

pub without_nonblock : ℕ → ℕ
unfolding has_nonblock
without_nonblock flags = if has_nonblock flags then flags - 2048 else flags

-- `!ctx->IsClose() && ctx->IsSocket()` for the context at an address, with the address.
pub if_open : FdContextManager → ℕ → Option (ℕ × FdContext)
if_open m a = let c = m.objects a in if c.is_closed || not c.is_socket then none else some (a, c)

-- The open socket's context that Get finds.
pub context_of : ℤ → FdContextManager → Option (ℕ × FdContext)
unfolding get if_open
context_of fd m = elim (get none fd false m).0 [ none ↦ none | some a ↦ if_open m a ]

-- SetUserNonblock on the context `c` at the address `a`.
pub set_user_nonblock : Bool → ℕ → FdContext → FdContextManager → FdContextManager
set_user_nonblock v a c m = record m {
  objects = λ b. if b == a then record c { is_user_nonblock = v } else m.objects b;
}

-- fcntl with F_SETFL: the flags that the system is given, and the contexts.
pub set_flags : ℤ → ℕ → FdContextManager → ℕ × FdContextManager
unfolding context_of with_nonblock without_nonblock has_nonblock set_user_nonblock
set_flags fd flags m = elim (context_of fd m) [
  | none ↦ (flags, m)
  | some (a, c) ↦ (
    if c.is_sys_nonblock then with_nonblock flags else without_nonblock flags,
    set_user_nonblock (has_nonblock flags) a c m,
  )
]

-- fcntl with F_GETFL, where the system answers `flags`.
pub get_flags : ℤ → ℕ → FdContextManager → ℕ
unfolding context_of with_nonblock without_nonblock
get_flags fd flags m = elim (context_of fd m) [
  | none ↦ flags
  | some (a, c) ↦ if c.is_user_nonblock then with_nonblock flags else without_nonblock flags
]

-- ioctl with FIONBIO: the contexts. The system is given the request as it is.
pub set_nonblock : ℤ → Bool → FdContextManager → FdContextManager
unfolding context_of set_user_nonblock
set_nonblock fd user_nonblock m = elim (context_of fd m) [
  | none ↦ m
  | some (a, c) ↦ set_user_nonblock user_nonblock a c m
]
