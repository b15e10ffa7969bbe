-- ===== src/Base/Timer/Expiry.antt =====
-- Which callbacks ListExpiredCb lists, and what it leaves of the timers.
use server_frame.Prelude.{
  ℕ, ◌+◌, ◌%◌, ◌^◌, ◌≡◌, ◌≢◌, List, [], ◌∷◌, Option, none, Bool, true, false, if◌then◌else◌, All,
}
use server_frame.Base.Timer.{
  Timer, TimerManager, Heap, insert, restart, disarm, detect_clock_rollover,
}
use server_frame.Base.Timer.Invariant.{IsValid}
use server_frame.Base.Timer.Due.{due}

abbrev pub callbacks : Heap → List ℕ → List (Option ℕ)
callbacks h [] = []
callbacks h (x ∷ xs) = (h x).cb ∷ callbacks h xs

-- What becomes of a timer that has expired: the period of a recurring one starts again, another
-- one loses its callback.
abbrev pub Settled : ℕ → Timer → Timer → Type 0
Settled now t u =
    u ≡ (if t.recurring then record t { next = (now + t.ms) % 2 ^ 64 } else record t { cb = none })

pub record Fired (now : ℕ) (xs : List ℕ) (h : Heap) (r : List (Option ℕ) × TimerManager)
    : Type 0 where
  pub calls : r.0 ≡ callbacks h xs
  pub valid : IsValid r.1
  pub settled : All (λ a. Settled now (h a) (r.1.heap a)) xs
  pub kept : (b : ℕ) → All (λ a. b ≢ a) xs → r.1.heap b ≡ h b

-- One step of the loop, on a recurring timer and on another.
settle : Bool → ℕ → ℕ → TimerManager → TimerManager
settle true now a m = record m {
  heap = restart now a m.heap;
  timers = insert (restart now a m.heap) a m.timers;
}
settle false now a m = record m { heap = disarm a m.heap }

-- The timers that a call takes out: all of them after the clock went back.
abbrev pub expired : ℕ → TimerManager → List ℕ
expired now m = if (detect_clock_rollover now m).0 then m.timers else due m.heap now m.timers
