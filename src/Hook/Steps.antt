-- ===== src/Hook/Steps.antt =====
-- The steps of DoIo: what it does on each answer of the calls that it makes.
use server_frame.Prelude.{ℕ, suc, refl, ◌≡◌, ◌≢◌, ap, Option, none, some, true, false, ==-false}
use server_frame.Base.FdManager.{FdContext}
use server_frame.Hook.{
  Reply, Host, unlimited, eintr, eagain, is_error, is_direct, call_again, start_timer, await, retry,
  do_io, wait_event,
}

module _ {S : Type 0} (host : Host S) where
  pub call_interrupted :
      (fuel : ℕ) (s : S)
      → is_error eintr (host.call s).0 ≡ true
      → call_again host (suc fuel) s ≡ call_again host fuel (host.call s).1
  unfolding call_again
  call_interrupted fuel s e = rw (e, call_again)

  pub call_answered :
      (fuel : ℕ) (s : S)
      → is_error eintr (host.call s).0 ≡ false
      → call_again host (suc fuel) s ≡ (some (host.call s).0, (host.call s).1)
  unfolding call_again
  call_answered fuel s e =
      ap
        (λ b. elim b [
          | true ↦ call_again host fuel (host.call s).1
          | false ↦ (some (host.call s).0, (host.call s).1)
        ])
        e

  pub await_without :
      (to : ℕ) (s : S) → to ≡ unlimited → await host to 0 s ≡ wait_event host none 0 s
  unfolding await start_timer
  await_without to s e = rw (await, start_timer, e)

  pub await_with :
      (to : ℕ) (s : S)
      → to ≢ unlimited
      → await host to 0 s ≡ wait_event host (some (host.add_timer to s).0) 0 (host.add_timer to s).1
  unfolding await start_timer
  await_with to s e = rw (==-false to unlimited e)

  -- What `retry` does behind a wait, and behind the call.
  abbrev pub after_wait : ℕ → ℕ → Option Reply × ℕ × S → Option Reply × S
  after_wait fuel to w = elim w.0 [ none ↦ retry host fuel to w.1 w.2 | some e ↦ (some e, w.2) ]

  abbrev pub after_call : ℕ → ℕ → Option Reply × S → Option Reply × S
  after_call fuel to p = elim p.0 [
    | none ↦ (none, p.1)
    | some r ↦ elim (is_error eagain r) [
      | false ↦ (some r, p.1)
      | true ↦ after_wait fuel to (await host to 0 p.1)
    ]
  ]

  pub retry_step :
      (fuel to : ℕ) (s : S)
      → retry host (suc fuel) to 0 s ≡ after_call fuel to (call_again host fuel s)
  unfolding retry
  retry_step fuel to s = refl

  pub after_answer :
      (fuel to : ℕ) (r : Reply) (t : S)
      → is_error eagain r ≡ false
      → after_call fuel to (some r, t) ≡ (some r, t)
  after_answer fuel to r t e = rw (e, after_call)

  pub after_block :
      (fuel to : ℕ) (r : Reply) (t : S)
      → is_error eagain r ≡ true
      → after_call fuel to (some r, t) ≡ after_wait fuel to (await host to 0 t)
  after_block fuel to r t e = rw (e, after_call)

  pub do_io_waiting :
      (fuel : ℕ) (c : FdContext) (timeout : FdContext → ℕ) (s : S)
      → c.is_closed ≡ false
      → is_direct c ≡ false
      → do_io host fuel true (some c) timeout s ≡ retry host fuel (timeout c) 0 s
  unfolding do_io
  do_io_waiting fuel c timeout s e d = simp (e, d, do_io)
