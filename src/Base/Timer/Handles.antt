-- ===== src/Base/Timer/Handles.antt =====
-- What the calls on a timer do to the set: AddTimer, Cancel and Refresh.
use server_frame.Prelude.{
  ℕ, suc, ◌+◌, ◌%◌, ◌^◌, ◌<◌, ◌≡◌, ◌≢◌, refl, sym, ap, ◌∙◌, ◌↔◌, Option-cases, inl, inr, List, [],
  ◌∷◌, none, some, Bool, true, false, arith, All, ℕ-cases,
}
use mathlib.Core.Path.{subst}
use server_frame.Base.Timer.{
  Timer, TimerManager, Heap, update, insert, erase, add_pointer, add_timer, Reply, answers, faults,
  cancel, refresh, restart, disarm,
}
use server_frame.Base.Timer.Order.{
  In, All-of, All-map, In-insert_self, Sorted-same, erase-same, update_ne, update_self,
}
use server_frame.Base.Timer.Invariant.{
  Holding, IsValid, IsArmed, none≢some, take_out, disarm-Holding, disarm-cb, restart-Holding,
  restart-next, insert_held,
}

abbrev pub Replies : Reply → (Bool → TimerManager → Type 0) → Type 0
Replies (answers r m) P = P r m
Replies faults P = ⊥

cancel_off : (a : ℕ) (m : TimerManager) → (m.heap a).cb ≡ none → cancel a m ≡ answers false m
unfolding cancel
cancel_off a m e = rw (e, cancel)

cancel_on :
    (a c : ℕ) (ts : List ℕ) (m : TimerManager)
    → (m.heap a).cb ≡ some c
    → erase (disarm a m.heap) a m.timers ≡ some ts
    → cancel a m ≡ answers true (record m { timers = ts; heap = disarm a m.heap })
unfolding cancel
cancel_on a c ts m e f = rw (e, f, cancel)

same_next : (h : Heap) (a b : ℕ) → (disarm a h b).next ≡ (h b).next
unfolding disarm
same_next h a b = elim (ℕ-cases b a) [
  | inl e ↦ rw e (ap (λ (t : Timer). t.next) (update_self h a _))
  | inr n ↦ ap (λ (t : Timer). t.next) (update_ne h a b _ n)
]

-- An armed timer is in the set.
armed-In : (m : TimerManager) (a : ℕ) → IsValid m → a < m.fresh → IsArmed (m.heap a) → In a m.timers
armed-In m a v l on = elim (v.complete a l on) [ inl k ↦ k | inr k ↦ absurd k ]

-- Cancel never erases at the end of the set: it answers whether the timer was armed, leaves it
-- disarmed, and keeps the invariant.
pub cancel-Replies :
    (a : ℕ) (m : TimerManager)
    → IsValid m
    → a < m.fresh
    → Replies
        (cancel a m)
        (λ r n. IsValid n × ((n.heap a).cb ≡ none) × ((r ≡ true) ↔ IsArmed (m.heap a)))
cancel-Replies a m v l = elim (Option-cases (m.heap a).cb) [
  | inl e ↦ rw (cancel_off a m e) (v, e, ((λ q. cc), λ on. absurd (none≢some (sym e ∙ on.1))))
  | inr (c, e) ↦
      let (ts, found, taken) = take_out m a v (armed-In m a v l (c, e)) in
      let found' = erase-same (disarm a m.heap) m.heap a m.timers (same_next m.heap a) ∙ found in
      rw (cancel_on a c ts m e found') (
        disarm-Holding [] a (record m { timers = ts }) taken tt,
        disarm-cb a m.heap,
        ((λ q. (c, e)), λ on. refl),
      )
]

refresh_on :
    (now a c : ℕ) (ts : List ℕ) (m : TimerManager)
    → (m.heap a).cb ≡ some c
    → erase m.heap a m.timers ≡ some ts
    → refresh now a m
      ≡ answers true
          (record m { timers = insert (restart now a m.heap) a ts; heap = restart now a m.heap })
unfolding refresh
refresh_on now a c ts m e f = rw (e, f, refresh)

refresh_off :
    (now a : ℕ) (m : TimerManager) → (m.heap a).cb ≡ none → refresh now a m ≡ answers false m
unfolding refresh
refresh_off now a m e = rw (e, refresh)

-- Refresh answers whether the timer is armed, and moves an armed one to a full period from now.
pub refresh-Replies :
    (now a : ℕ) (m : TimerManager)
    → IsValid m
    → a < m.fresh
    → Replies (refresh now a m) (λ r n.
      IsValid n
      × ((r ≡ true) ↔ IsArmed (m.heap a))
      × (r ≡ true → ((n.heap a).next ≡ (now + (m.heap a).ms) % 2 ^ 64) × In a n.timers))
refresh-Replies now a m v l = elim (Option-cases (m.heap a).cb) [
  | inl e ↦
      rw (refresh_off now a m e) (v, ((λ q. cc), λ on. absurd (none≢some (sym e ∙ on.1))), λ q. cc)
  | inr (c, e) ↦
      let (ts, found, taken) = take_out m a v (armed-In m a v l (c, e)) in
      rw (refresh_on now a c ts m e found) (
        insert_held [] a (record m { timers = ts; heap = restart now a m.heap })
            (restart-Holding [] now a (record m { timers = ts }) taken tt) tt,
        ((λ q. (c, e)), λ on. refl),
        λ q. (restart-next now a m.heap, In-insert_self (restart now a m.heap) a ts),
      )
]

-- A new timer is armed, at its time, and in the set.
pub add_timer-IsValid :
    (now ms cb : ℕ) (recurring : Bool) (m : TimerManager)
    → IsValid m
    → let n = (add_timer now ms cb recurring m).0 in
      IsValid n
      × In m.fresh n.timers
      × ((n.heap m.fresh).next ≡ (now + ms) % 2 ^ 64)
      × ((n.heap m.fresh).cb ≡ some cb)
unfolding add_timer add_pointer
add_timer-IsValid now ms cb recurring m v =
    let t : Timer = record {
      recurring = recurring;
      ms = ms;
      next = (now + ms) % 2 ^ 64;
      cb = some cb;
    } in
    let h = update m.heap m.fresh t in
    let old : All (λ b. b ≢ m.fresh) m.timers = All-map m.timers (λ b i q e. omega arith) v.live in
    let same : All (λ b. (m.heap b).next ≡ (h b).next) m.timers =
      All-map m.timers (λ b i n. ap (λ (u : Timer). u.next) (sym (update_ne m.heap m.fresh b t n)))
        old in
    let self : h m.fresh ≡ t = update_self m.heap m.fresh t in
    let out : Holding (m.fresh ∷ []) (record m { heap = h; fresh = suc m.fresh }) = record {
      sorted = Sorted-same m.heap h m.timers same v.sorted;
      live =
          All-map m.timers
            (λ b i q. (
              omega arith,
              subst IsArmed
                  (sym (update_ne m.heap m.fresh b t (All-of (λ c. c ≢ m.fresh) m.timers old i)))
                  q.1,
            ))
            v.live;
      waiting = ((omega arith, subst IsArmed (sym self) (cb, refl)), tt);
      apart = (old, tt);
      complete = λ b l on. elim (ℕ-cases b m.fresh) [
        | inl e ↦ inr (inl e)
        | inr n ↦
            elim (v.complete b (omega arith) (subst IsArmed (update_ne m.heap m.fresh b t n) on)) [
              | inl k ↦ inl k
              | inr k ↦ absurd k
            ]
      ];
    } in
    let put = insert_held [] m.fresh _ out tt in
    (
      record {
        sorted = put.sorted;
        live = put.live;
        waiting = put.waiting;
        apart = put.apart;
        complete = put.complete;
      },
      In-insert_self h m.fresh m.timers,
      ap (λ (u : Timer). u.next) self,
      ap (λ (u : Timer). u.cb) self,
    )
