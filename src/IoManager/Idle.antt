-- ===== src/IoManager/Idle.antt =====
-- What CancelAll does, and when the IOManager may stop.
use server_frame.Prelude.{
  ℕ, zero, suc, ◌-◌, ◌*◌, ◌%◌, ◌^◌, ◌≤◌, ◌<◌, ◌≡◌, refl, ap, ◌∙◌, arith, inl, inr, List, [], ◌∷◌,
  none, some, Bool, true, false, ◌&&◌, ◌||◌, length, get_elem?, Option-cases, Bool-cases, All,
}
use mathlib.Core.Path.{subst}
use server_frame.Base.Timer.{Timer, TimerManager, get_next_timer}
use server_frame.Base.Timer.Invariant as Timers
use server_frame.Base.Timer.Order.{In}
use server_frame.Base.Scheduler.{Scheduler, is_stopping}
use server_frame.Base.Scheduler.Shutdown.{HasStopped, is_stopping-HasStopped}
use server_frame.IoManager.{
  Event, k_none, k_read, k_write, FdContext, IoManager, answers, has, cancel_all, stopping,
}
use server_frame.IoManager.Context.{count}
use server_frame.IoManager.Invariant.{IsValid, armed}
use server_frame.IoManager.Registration.{registered, registered_at, Replies}
use server_frame.IoManager.Triggers.{trigger_both-BothDone}
use server_frame.IoManager.Cancelling.{
  Idles, stored-Idles, all_off, finish, finish-off, cancel_all_step, cancel_all_failed,
}

cancel_all_none :
    (ctl : Bool) (fd : ℕ) (m : IoManager)
    → (registered fd k_read m || registered fd k_write m) ≡ false
    → cancel_all ctl fd m ≡ answers false m
unfolding cancel_all has
cancel_all_none ctl fd m e = elim (Option-cases (get_elem? m.fd_contexts fd)) [
  | inl f ↦ rw (cancel_all, f)
  | inr (c, f) ↦
      let h : (c.events.can_read || c.events.can_write) ≡ false = rw (registered, f) at e in
      rw (cancel_all, f) (rw h refl)
]

some_at :
    (fd : ℕ) (m : IoManager)
    → (registered fd k_read m || registered fd k_write m) ≡ true
    → (c : FdContext) × (get_elem? m.fd_contexts fd ≡ some c)
      × ((c.events.can_read || c.events.can_write) ≡ true)
unfolding has
some_at fd m e = elim (Option-cases (get_elem? m.fd_contexts fd)) [
  | inl f ↦ let g : false ≡ true = rw (registered, f) at e in cc
  | inr (c, f) ↦
      let g : (c.events.can_read || c.events.can_write) ≡ true = rw (registered, f) at e in
      (c, f, g)
]

-- On a valid IOManager CancelAll never fails an assertion. It answers whether an event of the
-- descriptor was registered and epoll took the descriptor off; it keeps the invariant, leaves
-- neither event registered when it answers true, and changes nothing when it answers false.
pub cancel_all-Replies :
    (ctl : Bool) (fd : ℕ) (m : IoManager)
    → IsValid m
    → Replies (cancel_all ctl fd m) (λ b n.
      IsValid n
      × (b ≡ ((registered fd k_read m || registered fd k_write m) && ctl))
      × (b ≡ true → Idles fd n)
      × (b ≡ false → n ≡ m))
cancel_all-Replies ctl fd m v =
    elim (Bool-cases (registered fd k_read m || registered fd k_write m)) [
      | inl e ↦ elim (Bool-cases ctl) [
        | inl t ↦
            let (c, f, h) = some_at fd m e in
            let both = trigger_both-BothDone fd c.events c m v f (λ q. q) (λ q. q) in
            let r = both.reads ∙ all_off c.events.can_read in
            let w = both.writes ∙ all_off c.events.can_write in
            rw
              (
                t,
                e,
                cancel_all_step fd c m f h
                    ∙ ap finish both.result
                    ∙ finish-off both.context both.after r w,
              )
              (
                both.valid,
                refl,
                (λ q. stored-Idles fd both.context both.after both.stored r w),
                (λ q. cc),
              )
        | inr t ↦ rw (t, e, cancel_all_failed fd m) (v, refl, (λ q. cc), λ q. refl)
      ]
      | inr e ↦ rw (e, cancel_all_none ctl fd m e) (v, refl, (λ q. cc), λ q. refl)
    ]

-- The number of events that wait is at most two for each context.
armed_le : (cs : List FdContext) → armed cs ≤ 2 * length cs
armed_le [] = omega arith
armed_le (c ∷ cs) =
    let small : count c.events ≤ 2 = ground arith in omega (arith, small, armed_le cs)

no_count : (event : Event) (c : FdContext) → count c.events ≡ 0 → has event c.events ≡ false
unfolding has
no_count k_none c e = refl
no_count k_read c e = ground arith
no_count k_write c e = ground arith

none_waiting :
    (cs : List FdContext) (fd : ℕ) (event : Event) (c : FdContext)
    → armed cs ≡ 0
    → get_elem? cs fd ≡ some c
    → has event c.events ≡ false
unfolding has
none_waiting [] fd event c a e = cc
none_waiting (x ∷ xs) zero event c a e =
    let off : has event x.events ≡ false = no_count event x (omega arith) in
    subst (λ o. elim o [ none ↦ Unit {0} | some y ↦ has event y.events ≡ false ]) e off
none_waiting (x ∷ xs) (suc fd) event c a e = none_waiting xs fd event c (omega arith) e

stopping_iff :
    (now : ℕ) (timers : TimerManager) (scheduler : Scheduler) (m : IoManager)
    → stopping now timers scheduler m ≡ true
    → ((get_next_timer now timers).0 ≡ 2 ^ 64 - 1)
      × (m.pending ≡ 0)
      × (is_stopping scheduler ≡ true)
unfolding stopping
stopping_iff now timers scheduler m s = ground arith

-- The times are of type uint64_t.
abbrev pub IsTimed : TimerManager → Type 0
IsTimed m = All (λ a. (m.heap a).next < 2 ^ 64) m.timers

no_timers :
    (now : ℕ) (heap : ℕ → Timer) (ts : List ℕ) (fresh : ℕ) (tickled : Bool) (previous : ℕ)
    → All (λ a. (heap a).next < 2 ^ 64) ts
    → 0 < now
    → (get_next_timer now (record {
      timers = ts;
      heap = heap;
      fresh = fresh;
      tickled = tickled;
      previous_time = previous;
    })).0
      ≡ 2 ^ 64 - 1
    → ts ≡ []
unfolding get_next_timer
no_timers now heap [] fresh tickled previous w l e = refl
no_timers now heap (a ∷ ts) fresh tickled previous (h, hs) l e = absurd (ground arith)

unarmed :
    (timers : TimerManager) (a : ℕ)
    → Timers.IsValid timers
    → timers.timers ≡ []
    → a < timers.fresh
    → (timers.heap a).cb ≡ none
unarmed timers a v e l = elim (Option-cases (timers.heap a).cb) [
  | inl h ↦ h
  | inr (c, h) ↦ elim (v.complete a l (c, h)) [
    | inl i ↦ absurd (subst (In a) e i)
    | inr i ↦ absurd i
  ]
]

-- At a time after 0, with valid timers and fewer than 2^63 contexts: when the IOManager may stop,
-- the set of timers is empty and no timer that was made is armed, no event is registered for any
-- descriptor, and the scheduler has been told to stop, with no task in its queue and no active
-- thread.
pub stopping-Idles :
    (now : ℕ) (timers : TimerManager) (scheduler : Scheduler) (m : IoManager) (a fd : ℕ)
    (event : Event)
    → IsValid m
    → Timers.IsValid timers
    → IsTimed timers
    → 0 < now
    → a < timers.fresh
    → length m.fd_contexts < 2 ^ 63
    → stopping now timers scheduler m ≡ true
    → (timers.timers ≡ [])
      × ((timers.heap a).cb ≡ none)
      × (registered fd event m ≡ false)
      × HasStopped scheduler
stopping-Idles now timers scheduler m a fd event v tv timed later made l s =
    let (t, p, d) = stopping_iff now timers scheduler m s in
    let few = armed_le m.fd_contexts in
    let counted : m.pending ≡ armed m.fd_contexts % 2 ^ 64 = v.counted in
    let off : armed m.fd_contexts ≡ 0 = omega arith in
    let empty =
      no_timers now timers.heap timers.timers timers.fresh timers.tickled timers.previous_time timed
        later t in
    (
      empty,
      unarmed timers a tv empty made,
      elim (Bool-cases (registered fd event m)) [
        | inl e ↦
            let (c, f, h) = registered_at fd event m e in
            absurd (cc (none_waiting m.fd_contexts fd event c off f, h))
        | inr e ↦ e
      ],
      is_stopping-HasStopped scheduler d,
    )
