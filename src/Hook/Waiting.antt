-- ===== src/Hook/Waiting.antt =====
-- What DoIo answers, and that it ends.
use server_frame.Prelude.{
  ℕ, zero, suc, ◌+◌, ◌≤◌, ◌<◌, ◌≡◌, ◌≢◌, refl, ap, ◌∙◌, ◌⊎◌, inl, inr, Option, none, some, Bool,
  true, false, arith, Bool-cases, Option-cases, ℕ-cases,
}
use mathlib.Core.Path.{subst}
use server_frame.Base.FdManager.{FdContext}
use server_frame.Hook.{
  Reply, returns, fails, Host, unlimited, eintr, eagain, etimedout, is_error, is_direct, call_again,
  stop_timer, on_timeout, hold, await, retry, do_io, wait_event, ebadf,
}
use server_frame.Hook.Blocking.{
  Armed, without, yielded_from, Answers, answered, interrupted, refused, expired, woken,
}
use server_frame.Hook.Steps.{
  call_interrupted, call_answered, await_without, await_with, retry_step, after_wait, after_answer,
  after_block, do_io_waiting,
}

is_error-fails : (e : ℕ) (r : Reply) → is_error e r ≡ true → r ≡ fails e
unfolding is_error
is_error-fails e (returns n) h = ground arith
is_error-fails e (fails errno) h = ap fails (ground arith)

is_error_not : (e : ℕ) (r : Reply) → is_error e r ≡ false → r ≢ fails e
unfolding is_error
is_error_not e r h k = absurd (ground arith)

module _ {S : Type 0} (host : Host S) (pending : S → ℕ) where
  -- Before its final answer the system answers EINTR and EAGAIN `pending` times at most, and what
  -- DoIo does in between does not delay the answer.
  pub record IsSettling : Type 0 where
    pub interrupted : (s : S) → (host.call s).0 ≡ fails eintr → pending (host.call s).1 < pending s
    pub blocked : (s : S) → (host.call s).0 ≡ fails eagain → pending (host.call s).1 < pending s
    pub timer_added : (to : ℕ) (s : S) → pending (host.add_timer to s).1 ≤ pending s
    pub timer_stopped : (timer : ℕ) (s : S) → pending (host.cancel_timer timer s) ≤ pending s
    pub event_added : (s : S) → pending (host.add_event s).1 ≤ pending s
    pub yielded : (s : S) → pending (host.yield s).1 ≤ pending s

  -- The first call that is not interrupted, at `u`: what follows from it follows from `s`.
  record Called (to : ℕ) (s : S) (p : Option Reply × S) : Type 0 where
    last : S
    result : p ≡ (some (host.call last).0, (host.call last).1)
    ended : (host.call last).0 ≢ fails eintr
    less : pending last ≤ pending s
    before : {q : Option Reply × S} → Answers host to last q → Answers host to s q

  call_again-Called :
      IsSettling → (fuel to : ℕ) (s : S) → pending s < fuel → Called to s (call_again host fuel s)
  call_again-Called h zero to s l = absurd (omega arith)
  call_again-Called h (suc fuel) to s l = elim (Bool-cases (is_error eintr (host.call s).0)) [
    | inl e ↦
        let stopped = is_error-fails eintr (host.call s).0 e in
        let less = h.interrupted s stopped in
        let c = call_again-Called h fuel to (host.call s).1 (omega arith) in
        record {
          last = c.last;
          result = call_interrupted host fuel s e ∙ c.result;
          ended = c.ended;
          less = omega (arith, c.less);
          before = λ a. interrupted stopped (c.before a);
        }
    | inr e ↦ record {
      last = s;
      result = call_answered host fuel s e;
      ended = is_error_not eintr (host.call s).0 e;
      less = omega arith;
      before = λ a. a;
    }
  ]

  -- A wait from the state `s`, in which AddEvent is called: why it ends, with what result.
  data Waited (to : ℕ) (timer : Option ℕ) (t : S) : Option Reply × ℕ × S → Type 0 where
    not_added :
        {errno : ℕ} {c : ℕ} {u : S}
        → (host.add_event t).0 ≡ some errno
        → u ≡ without host timer (host.add_event t).1
        → Waited to timer t (some (fails errno), c, u)
    timed_out :
        {k : ℕ} {u : S}
        → timer ≡ some k
        → (host.add_event t).0 ≡ none
        → (host.yield (host.add_event t).1).0 ≡ true
        → u ≡ without host (some k) (host.resume (host.cancel_event (yielded_from host t)))
        → Waited to timer t (some (fails etimedout), etimedout, u)
    resumed :
        {u : S}
        → (host.add_event t).0 ≡ none
        → (timer ≡ none) ⊎ ((host.yield (host.add_event t).1).0 ≡ false)
        → u ≡ without host timer (yielded_from host t)
        → Waited to timer t (none, 0, u)

  wait_event-Waited :
      (to : ℕ) (timer : Option ℕ) (t : S) → Waited to timer t (wait_event host timer 0 t)
  unfolding wait_event stop_timer hold on_timeout
  wait_event-Waited to none t = elim (Option-cases (host.add_event t).0) [
    | inr (errno, e) ↦ rw (e, wait_event) (not_added e refl)
    | inl e ↦ rw (e, wait_event) (resumed e (inl refl) refl)
  ]
  wait_event-Waited to (some k) t = elim (Option-cases (host.add_event t).0) [
    | inr (errno, e) ↦ rw (e, wait_event) (not_added e refl)
    | inl e ↦ elim (Bool-cases (host.yield (host.add_event t).1).0) [
      | inl y ↦ rw (e, y, wait_event) (timed_out refl e y refl)
      | inr y ↦ rw (e, y, wait_event) (resumed e (inr y) refl)
    ]
  ]

  record Begun (to : ℕ) (s : S) : Type 0 where
    timer : Option ℕ
    state : S
    armed : Armed host to s timer state
    waited : Waited to timer state (await host to 0 s)

  await-Begun : (to : ℕ) (s : S) → Begun to s
  await-Begun to s = elim (ℕ-cases to unlimited) [
    | inl e ↦ record {
      timer = none;
      state = s;
      armed = inl (e, refl, refl);
      waited = rw (await_without host to s e) (wait_event-Waited to none s);
    }
    | inr e ↦ record {
      timer = some (host.add_timer to s).0;
      state = (host.add_timer to s).1;
      armed = inr (e, refl, refl);
      waited =
          rw (await_with host to s e)
            (wait_event-Waited to (some (host.add_timer to s).0) (host.add_timer to s).1);
    }
  ]

  without_lem : IsSettling → (timer : Option ℕ) (s : S) → pending (without host timer s) ≤ pending s
  without_lem h none s = omega arith
  without_lem h (some timer) s = h.timer_stopped timer s

  armed_lem :
      IsSettling
      → (to : ℕ) (s : S) (timer : Option ℕ) (t : S) → Armed host to s timer t
      → pending t ≤ pending s
  armed_lem h to s timer t (inl (a, b, e)) = rw e (omega arith)
  armed_lem h to s timer t (inr (a, b, e)) = rw e (h.timer_added to s)

  woken_lem :
      IsSettling
      → (to : ℕ) (s : S) (timer : Option ℕ) (t : S) → Armed host to s timer t
      → pending (without host timer (yielded_from host t)) ≤ pending s
  woken_lem h to s timer t armed =
      let begun = armed_lem h to s timer t armed in
      let added = h.event_added t in
      let back = h.yielded (host.add_event t).1 in
      let stopped = without_lem h timer (yielded_from host t) in omega arith

  after_wait-Answers :
      IsSettling
      → (fuel to : ℕ) (u : S) (timer : Option ℕ) (t : S) (w : Option Reply × ℕ × S)
      → (host.call u).0 ≡ fails eagain
      → Armed host to (host.call u).1 timer t
      → ((v : S) → pending v ≤ pending (host.call u).1 → Answers host to v (retry host fuel to 0 v))
      → Waited to timer t w
      → Answers host to u (after_wait host fuel to w)
  after_wait-Answers h fuel to u timer t _ blocked armed ih (not_added e q) =
      rw q (refused blocked armed e)
  after_wait-Answers h fuel to u timer t _ blocked armed ih (timed_out {k} f e y q) =
      rw q (expired blocked (subst (λ o. Armed host to (host.call u).1 o t) f armed) e y)
  after_wait-Answers h fuel to u timer t _ blocked armed ih (resumed e o q) = rw q (
      woken blocked armed e o (
        ih (without host timer (yielded_from host t))
          (woken_lem h to (host.call u).1 timer t armed)))

  retry-Answers :
      IsSettling
      → (fuel to : ℕ) (s : S) → pending s + 1 < fuel
      → Answers host to s (retry host fuel to 0 s)
  retry-Answers h zero to s l = absurd (omega arith)
  retry-Answers h (suc fuel) to s l =
      let c = call_again-Called h fuel to s (omega arith) in
      let less = c.less in
      let u = c.last in
      let r = (host.call u).0 in
      let t = (host.call u).1 in
      rw (retry_step host fuel to s, c.result)
        (elim (Bool-cases (is_error eagain r)) [
          | inr e ↦
              rw (after_answer host fuel to r t e)
                (c.before (answered c.ended (is_error_not eagain r e)))
          | inl e ↦
              let blocks = is_error-fails eagain r e in
              let fewer = h.blocked u blocks in
              let b = await-Begun to t in
              rw (after_block host fuel to r t e) (
                c.before (
                  after_wait-Answers h fuel to u b.timer b.state (await host to 0 t) blocks b.armed
                    (λ v m. retry-Answers h fuel to v (omega arith)) b.waited))
        ])

  -- The answer of one call.
  abbrev pub IsOneCall : S → Option Reply × S → Type 0
  IsOneCall s p = p ≡ (some (host.call s).0, (host.call s).1)

  -- By whether the descriptor is closed and whether the call goes straight to the system.
  abbrev pub ServesSocket : Bool → Bool → ℕ → S → Option Reply × S → Type 0
  ServesSocket true direct to s p = p ≡ (some (fails ebadf), s)
  ServesSocket false true to s p = IsOneCall s p
  ServesSocket false false to s p = Answers host to s p

  abbrev pub Serves : Bool → Option FdContext → (FdContext → ℕ) → S → Option Reply × S → Type 0
  Serves false ctx timeout s p = IsOneCall s p
  Serves true none timeout s p = IsOneCall s p
  Serves true (some c) timeout s p = ServesSocket c.is_closed (is_direct c) (timeout c) s p

  do_io-ServesSocket :
      IsSettling
      → (fuel : ℕ) (c : FdContext) (timeout : FdContext → ℕ) (s : S) → pending s + 1 < fuel
      → (closed direct : Bool) → c.is_closed ≡ closed
      → is_direct c ≡ direct
      → ServesSocket closed direct (timeout c) s (do_io host fuel true (some c) timeout s)
  unfolding do_io
  do_io-ServesSocket h fuel c timeout s l true direct e d = rw (e, do_io)
  do_io-ServesSocket h fuel c timeout s l false true e d = rw (e, d, do_io)
  do_io-ServesSocket h fuel c timeout s l false false e d =
      rw (do_io_waiting host fuel c timeout s e d) (retry-Answers h fuel (timeout c) s l)

  -- Where the system settles and the fuel is at least two more than its pending answers, a hooked
  -- call ends. It is the call of the system where hooks are off, the descriptor has no context,
  -- or is no socket or the program's non-blocking one; on a closed descriptor it gives EBADF and
  -- calls nothing. On any other socket it does what `Answers` says of a blocking call: it calls again
  -- at EINTR, and at EAGAIN once it has waited; its result is the answer of the last call, which is
  -- neither, or, behind an EAGAIN, the error of AddEvent in that wait, or ETIMEDOUT if there is a
  -- timeout and the timer called back in that wait.
  pub do_io-Serves :
      IsSettling
      → (fuel : ℕ) (enabled : Bool) (ctx : Option FdContext) (timeout : FdContext → ℕ) (s : S)
      → pending s + 1 < fuel
      → Serves enabled ctx timeout s (do_io host fuel enabled ctx timeout s)
  unfolding do_io
  do_io-Serves h fuel false ctx timeout s l = refl
  do_io-Serves h fuel true none timeout s l = refl
  do_io-Serves h fuel true (some c) timeout s l =
      do_io-ServesSocket h fuel c timeout s l c.is_closed (is_direct c) refl refl
