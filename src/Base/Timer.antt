-- ===== src/Base/Timer.antt =====
-- server_frame/base/timer.h and timer.cc: timers and the TimerManager. A Timer::ptr is the address
-- of its object in `heap`; `timers` is the std::set of such pointers, in its order. A callback is
-- a number. The mutex is held throughout each operation, and the time is an argument.
pub mod Order
pub mod Invariant
pub mod Handles
pub mod Due
pub mod Expiry
use server_frame.Prelude.{
  ℕ, suc, ◌+◌, ◌-◌, ◌*◌, ◌%◌, ◌^◌, List, [], ◌∷◌, ◌++◌, Option, none, some, Bool, true, false, not,
  ◌&&◌, ◌||◌, ltb, leb, ◌==◌, if◌then◌else◌,
}

pub record Timer : Type 0 where
  pub recurring : Bool
  pub ms : ℕ
  pub next : ℕ
  pub cb : Option ℕ

-- `fresh` is the address of the next object that `new` makes.
pub record TimerManager : Type 0 where
  pub timers : List ℕ
  pub heap : ℕ → Timer
  pub fresh : ℕ
  pub tickled : Bool
  pub previous_time : ℕ

abbrev pub Heap : Type 0
Heap = ℕ → Timer

abbrev pub update : Heap → ℕ → Timer → Heap
update h a t x = if x == a then t else h x

-- The period of the timer at `a` starts now.
pub restart : ℕ → ℕ → Heap → Heap
restart now a h = update h a (record (h a) { next = (now + (h a).ms) % 2 ^ 64 })

-- The timer at `a` loses its callback.
pub disarm : ℕ → Heap → Heap
disarm a h = update h a (record (h a) { cb = none })

-- Timer::Comparator on two pointers that are not null.
pub less : Heap → ℕ → ℕ → Bool
less h a b =
    if ltb (h a).next (h b).next then true else if ltb (h b).next (h a).next then false else ltb a b

-- std::set::insert, find with erase, and lower_bound; `none` is the end of the set.
pub insert : Heap → ℕ → List ℕ → List ℕ
insert h a [] = a ∷ []
insert h a (x ∷ xs) =
    let rest = insert h a xs in
    if less h x a then x ∷ rest else if less h a x then a ∷ x ∷ xs else x ∷ xs

pub erase : Heap → ℕ → List ℕ → Option (List ℕ)
erase h a [] = none
erase h a (x ∷ xs) =
    let rest = erase h a xs in
    if less h x a
    then elim rest [ none ↦ none | some ys ↦ some (x ∷ ys) ]
    else if less h a x
    then none
    else some xs

-- The first part of the set: what lies in front of lower_bound of a timer with time `now` and
-- address `a`, and then the timers whose time is `now`; with the second part.
pub split_at : Heap → ℕ → ℕ → List ℕ → List ℕ × List ℕ
split_at h now a [] = ([], [])
split_at h now a (x ∷ xs) =
    let (front, back) = split_at h now a xs in
    if ltb (h x).next now || ((h x).next == now && ltb x a)
    then (x ∷ front, back)
    else if (h x).next == now
    then (x ∷ front, back)
    else ([], x ∷ xs)

-- `timers_.begin()` points to `a`.
pub is_front : ℕ → List ℕ → Bool
is_front a [] = false
is_front a (x ∷ xs) = a == x

-- AddTimer(Timer::ptr, lock); the answer says whether OnTimerInsertedAtFront is called.
unfoldable pub add_pointer : ℕ → TimerManager → TimerManager × Bool
unfolding insert is_front
add_pointer a m =
    let ts = insert m.heap a m.timers in
    let at_front = is_front a ts && not m.tickled in
    (record m { timers = ts; tickled = if at_front then true else m.tickled }, at_front)

-- AddTimer(ms, cb, recurring) and the constructor of Timer.
unfoldable pub add_timer : ℕ → ℕ → ℕ → Bool → TimerManager → TimerManager × Bool
unfolding add_pointer
add_timer now ms cb recurring m =
    let t : Timer = record {
      recurring = recurring;
      ms = ms;
      next = (now + ms) % 2 ^ 64;
      cb = some cb;
    } in
    add_pointer m.fresh (record m { heap = update m.heap m.fresh t; fresh = suc m.fresh })

-- The outcome of a call on a timer: `faults` is an erase at the end of the set.
pub data Reply : Type 0 where
  answers : Bool → TimerManager → Reply
  faults : Reply

pub cancel : ℕ → TimerManager → Reply
cancel a m = elim (m.heap a).cb [
  | none ↦ answers false m
  | some cb ↦
      let h = disarm a m.heap in
      elim (erase h a m.timers) [
        | none ↦ faults
        | some ts ↦ answers true (record m { timers = ts; heap = h })
      ]
]

pub refresh : ℕ → ℕ → TimerManager → Reply
refresh now a m = elim (m.heap a).cb [
  | none ↦ answers false m
  | some cb ↦ elim (erase m.heap a m.timers) [
    | none ↦ answers false m
    | some ts ↦
        let h = restart now a m.heap in answers true (record m { timers = insert h a ts; heap = h })
  ]
]

pub reset : ℕ → ℕ → ℕ → Bool → TimerManager → Reply
unfolding add_pointer
reset now a ms from_now m =
    let t = m.heap a in
    let start = if from_now then now else (t.next + 2 ^ 64 - t.ms) % 2 ^ 64 in
    let h = update m.heap a (record t { ms = ms; next = (start + ms) % 2 ^ 64 }) in
    if (ms == t.ms) && not from_now then answers true m else elim t.cb [
      | none ↦ answers false m
      | some cb ↦ elim (erase m.heap a m.timers) [
        | none ↦ answers false m
        | some ts ↦ answers true (add_pointer a (record m { timers = ts; heap = h })).0
      ]
    ]

pub has_timer : TimerManager → Bool
has_timer m = elim m.timers [ [] ↦ false | x ∷ xs ↦ true ]

-- A manager without timers, made at the time `now`.
unfoldable pub init : ℕ → Heap → TimerManager
init now h = record { timers = []; heap = h; fresh = 0; tickled = false; previous_time = now }

-- The milliseconds to the first timer; ~0 is the answer for none.
unfoldable pub get_next_timer : ℕ → TimerManager → ℕ × TimerManager
get_next_timer now m = (
  elim m.timers [
    | [] ↦ 2 ^ 64 - 1
    | a ∷ rest ↦ if leb (m.heap a).next now then 0 else (m.heap a).next - now
  ],
  record m { tickled = false },
)

pub detect_clock_rollover : ℕ → TimerManager → Bool × TimerManager
detect_clock_rollover now m =
    let rollover =
      ltb now m.previous_time && ltb now ((m.previous_time + 2 ^ 64 - 60 * 60 * 1000) % 2 ^ 64) in
    (rollover, record m { previous_time = now })

-- The loop over the expired timers: their callbacks, and the manager afterwards.
pub fire : ℕ → List ℕ → TimerManager → List (Option ℕ) × TimerManager
unfolding insert
fire now [] m = ([], m)
fire now (a ∷ rest) m =
    let t = m.heap a in
    let again = restart now a m.heap in
    let done = disarm a m.heap in
    let m' =
      if t.recurring
      then record m { heap = again; timers = insert again a m.timers }
      else record m { heap = done } in
    let (cbs, m'') = fire now rest m' in (t.cb ∷ cbs, m'')

-- ListExpiredCb. `now_timer` is an object of its own, at a new address.
pub list_expired_cb : ℕ → TimerManager → List (Option ℕ) × TimerManager
unfolding detect_clock_rollover split_at fire
list_expired_cb now m = elim m.timers [
  | [] ↦ ([], m)
  | first ∷ others ↦
      let (rollover, m') = detect_clock_rollover now m in
      let (front, back) =
        if rollover then (m.timers, []) else split_at m.heap now m.fresh m.timers in
      if not rollover && ltb now (m.heap first).next
      then ([], m')
      else fire now front (record m' { timers = back })
]
