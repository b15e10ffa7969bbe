-- ===== src/Tests/Timers.antt =====
-- Runs of the TimerManager, with two timers in its set.
use server_frame.Prelude.{◌+◌, ◌%◌, ◌^◌, ◌<◌, ◌≡◌, none, some, true, false, arith, ◌↔◌}
use server_frame.Base.Timer.{TimerManager, Heap, init, add_timer, cancel, refresh, add_pointer}
use server_frame.Base.Timer.Order.{In}
use server_frame.Base.Timer.Invariant.{IsValid, IsArmed, init-IsValid}
use server_frame.Base.Timer.Handles.{Replies, add_timer-IsValid, cancel-Replies, refresh-Replies}

abbrev blank : Heap
blank a = record { recurring = false; ms = 0; next = 0; cb = none }

-- A recurring timer of 10 ms with the callback 5, made at 100.
abbrev one_timer : TimerManager
one_timer = (add_timer 100 10 5 true (init 100 blank)).0

one_timer-IsValid : IsValid one_timer
one_timer-IsValid = (add_timer-IsValid 100 10 5 true (init 100 blank) (init-IsValid 100 blank)).0

one_fresh : 0 < one_timer.fresh
unfolding add_timer add_pointer init
one_fresh = omega arith

add_timer-IsValid_example :
    let n = (add_timer 105 20 6 false one_timer).0 in
    IsValid n
    × In one_timer.fresh n.timers
    × ((n.heap one_timer.fresh).next ≡ (105 + 20) % 2 ^ 64)
    × ((n.heap one_timer.fresh).cb ≡ some 6)
add_timer-IsValid_example = add_timer-IsValid 105 20 6 false one_timer one_timer-IsValid

cancel-Replies_example :
    Replies
      (cancel 0 one_timer)
      (λ r n. IsValid n × ((n.heap 0).cb ≡ none) × ((r ≡ true) ↔ IsArmed (one_timer.heap 0)))
cancel-Replies_example = cancel-Replies 0 one_timer one_timer-IsValid one_fresh

refresh-Replies_example : Replies (refresh 105 0 one_timer) (λ r n.
    IsValid n
    × ((r ≡ true) ↔ IsArmed (one_timer.heap 0))
    × (r ≡ true → ((n.heap 0).next ≡ (105 + (one_timer.heap 0).ms) % 2 ^ 64) × In 0 n.timers))
refresh-Replies_example = refresh-Replies 105 0 one_timer one_timer-IsValid one_fresh
