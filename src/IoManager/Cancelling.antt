-- ===== src/IoManager/Cancelling.antt =====
-- The branches of CancelAll.
use server_frame.Prelude.{
  ℕ, ◌≡◌, refl, inl, inr, Option, none, some, Bool, true, false, not, ◌&&◌, ◌||◌, if◌then◌else◌,
  get_elem?, Option-cases, Bool-cases,
}
use server_frame.IoManager.{
  k_read, k_write, FdContext, IoManager, Reply, answers, asserts, has, trigger_both, cancel_all,
}
use server_frame.IoManager.Registration.{registered}

-- Neither event is registered for the file descriptor.
abbrev pub Idles : ℕ → IoManager → Type 0
Idles fd n = (registered fd k_read n ≡ false) × (registered fd k_write n ≡ false)

pub stored-Idles :
    (fd : ℕ) (d : FdContext) (n : IoManager)
    → get_elem? n.fd_contexts fd ≡ some d
    → d.events.can_read ≡ false
    → d.events.can_write ≡ false
    → Idles fd n
unfolding has
stored-Idles fd d n e r w = (rw (registered, e) r, rw (registered, e) w)

pub all_off : (a : Bool) → (a && not a) ≡ false
all_off true = refl
all_off false = refl

pub finish : Option (FdContext × IoManager) → Reply
finish o = elim o [
  | none ↦ asserts
  | some (d, n) ↦ if d.events.can_read || d.events.can_write then asserts else answers true n
]

pub cancel_all_step :
    (fd : ℕ) (c : FdContext) (m : IoManager)
    → get_elem? m.fd_contexts fd ≡ some c
    → (c.events.can_read || c.events.can_write) ≡ true
    → cancel_all true fd m ≡ finish (trigger_both fd c.events c m)
unfolding cancel_all finish
cancel_all_step fd c m e h = rw (cancel_all, e) (rw h refl)

pub cancel_all_failed : (fd : ℕ) (m : IoManager) → cancel_all false fd m ≡ answers false m
unfolding cancel_all
cancel_all_failed fd m = elim (Option-cases (get_elem? m.fd_contexts fd)) [
  | inl e ↦ rw (cancel_all, e)
  | inr (c, e) ↦ elim (Bool-cases (c.events.can_read || c.events.can_write)) [
    | inl h ↦ rw (cancel_all, e) (rw h refl)
    | inr h ↦ rw (cancel_all, e) (rw h refl)
  ]
]

pub finish-off :
    (d : FdContext) (n : IoManager)
    → d.events.can_read ≡ false
    → d.events.can_write ≡ false
    → finish (some (d, n)) ≡ answers true n
unfolding finish
finish-off d n r w = rw (r, w) refl
