-- ===== src/Hook/Blocking.antt =====
-- The specification of a call that blocks the fiber, in the operations of `Host` alone.
use server_frame.Prelude.{◌≡◌, ◌≢◌, ◌⊎◌, ℕ, Option, none, some, true, false}
use server_frame.Hook.{Reply, fails, Host, unlimited, eintr, eagain, etimedout}

module _ {S : Type 0} (host : Host S) where
  -- The timer of a wait, and the state in which AddEvent is called.
  abbrev pub Armed : ℕ → S → Option ℕ → S → Type 0
  Armed to s timer t =
      ((to ≡ unlimited) × (timer ≡ none) × (t ≡ s))
      ⊎ ((to ≢ unlimited) × (timer ≡ some (host.add_timer to s).0) × (t ≡ (host.add_timer to s).1))

  abbrev pub without : Option ℕ → S → S
  without none s = s
  without (some timer) s = host.cancel_timer timer s

  -- The state when the fiber has yielded in the state `t`, with the event added.
  abbrev pub yielded_from : S → S
  yielded_from t = (host.yield (host.add_event t).1).1

  -- What a blocking call does. At an answer that is neither EINTR nor EAGAIN it ends; it calls
  -- again at EINTR. At EAGAIN it waits for the event: it ends with the error of AddEvent, or with
  -- ETIMEDOUT when the timer calls back while it waits, after the event is cancelled; and it calls
  -- again when it is resumed otherwise. Its timer is stopped in any case.
  pub data Answers (to : ℕ) : S → Option Reply × S → Type 0 where
    answered :
        {s : S}
        → (host.call s).0 ≢ fails eintr
        → (host.call s).0 ≢ fails eagain
        → Answers to s (some (host.call s).0, (host.call s).1)
    interrupted :
        {s : S} {p : Option Reply × S}
        → (host.call s).0 ≡ fails eintr
        → Answers to (host.call s).1 p
        → Answers to s p
    refused :
        {s : S} {timer : Option ℕ} {t : S} {errno : ℕ}
        → (host.call s).0 ≡ fails eagain
        → Armed to (host.call s).1 timer t
        → (host.add_event t).0 ≡ some errno
        → Answers to s (some (fails errno), without timer (host.add_event t).1)
    expired :
        {s : S} {timer : ℕ} {t : S}
        → (host.call s).0 ≡ fails eagain
        → Armed to (host.call s).1 (some timer) t
        → (host.add_event t).0 ≡ none
        → (host.yield (host.add_event t).1).0 ≡ true
        → Answers to s (
          some (fails etimedout),
          without (some timer) (host.resume (host.cancel_event (yielded_from t))),
        )
    woken :
        {s : S} {timer : Option ℕ} {t : S} {p : Option Reply × S}
        → (host.call s).0 ≡ fails eagain
        → Armed to (host.call s).1 timer t
        → (host.add_event t).0 ≡ none
        → (timer ≡ none) ⊎ ((host.yield (host.add_event t).1).0 ≡ false)
        → Answers to (without timer (yielded_from t)) p
        → Answers to s p
