-- ===== src/Hook/Flags.antt =====
-- The flags that the program reads are those that it set.
use server_frame.Prelude.{
  ℕ, ◌≡◌, refl, sym, ap, ◌∙◌, inl, inr, Option, none, some, Bool, true, false, arith, Option-cases,
  ℤ, pos, negsuc, if◌then◌else◌, ◌==◌,
}
use server_frame.Base.FdManager.{FdContext, FdContextManager, get}
use server_frame.Hook.{
  has_nonblock, with_nonblock, without_nonblock, context_of, set_flags, get_flags, if_open,
  set_user_nonblock, set_nonblock,
}

with_after : (flags : ℕ) → has_nonblock flags ≡ true → with_nonblock (with_nonblock flags) ≡ flags
unfolding has_nonblock with_nonblock
with_after flags h = ground arith

with_after_without :
    (flags : ℕ) → has_nonblock flags ≡ true → with_nonblock (without_nonblock flags) ≡ flags
unfolding has_nonblock with_nonblock without_nonblock
with_after_without flags h = ground arith

without_after_with :
    (flags : ℕ) → has_nonblock flags ≡ false → without_nonblock (with_nonblock flags) ≡ flags
unfolding has_nonblock with_nonblock without_nonblock
without_after_with flags h = ground arith

without_after :
    (flags : ℕ) → has_nonblock flags ≡ false → without_nonblock (without_nonblock flags) ≡ flags
unfolding has_nonblock without_nonblock
without_after flags h = ground arith

has-with : (flags : ℕ) → has_nonblock (with_nonblock flags) ≡ true
unfolding has_nonblock with_nonblock
has-with flags = ground arith

has-without : (flags : ℕ) → has_nonblock (without_nonblock flags) ≡ false
unfolding has_nonblock without_nonblock
has-without flags = ground arith

get_objects :
    (fd : ℤ) (m : FdContextManager) (f : ℕ → FdContext)
    → (get none fd false (record m { objects = f })).0 ≡ (get none fd false m).0
unfolding get
get_objects (negsuc n) m f = refl
get_objects (pos n) m f = ground arith

abbrev pub with_user : Bool → FdContext → FdContext
with_user v c = record c { is_user_nonblock = v }

if_open_lem :
    (m : FdContextManager) (k a : ℕ) (c : FdContext)
    → if_open m k ≡ some (a, c)
    → (k ≡ a) × (c.is_closed ≡ false) × (c.is_socket ≡ true)
unfolding if_open
if_open_lem m k a c h = ground arith

if_open-set_user_nonblock :
    (v : Bool) (m : FdContextManager) (a : ℕ) (c : FdContext)
    → c.is_closed ≡ false
    → c.is_socket ≡ true
    → if_open (set_user_nonblock v a c m) a ≡ some (a, with_user v c)
unfolding if_open set_user_nonblock
if_open-set_user_nonblock v m a c h k = ground arith

context_of-none :
    (fd : ℤ) (m : FdContextManager) → (get none fd false m).0 ≡ none → context_of fd m ≡ none
unfolding context_of
context_of-none fd m h = rw (h, context_of)

context_of-some :
    (fd : ℤ) (m : FdContextManager) (a : ℕ)
    → (get none fd false m).0 ≡ some a
    → context_of fd m ≡ if_open m a
unfolding context_of
context_of-some fd m a h = rw (h, context_of)

-- The context that was changed is found again.
context_of-set_user_nonblock :
    (v : Bool) (fd : ℤ) (m : FdContextManager) (a : ℕ) (c : FdContext)
    → context_of fd m ≡ some (a, c)
    → context_of fd (set_user_nonblock v a c m) ≡ some (a, with_user v c)
unfolding set_user_nonblock
context_of-set_user_nonblock v fd m a c h = elim (Option-cases (get none fd false m).0) [
  | inl e ↦ absurd (cc (h, context_of-none fd m e))
  | inr (k, e) ↦
      let (same, open_, socket) = if_open_lem m k a c (sym (context_of-some fd m k e) ∙ h) in
      let f = λ (b : ℕ). if b == a then with_user v c else m.objects b in
      let found = get_objects fd m f ∙ e ∙ ap some same in
      context_of-some fd (set_user_nonblock v a c m) a found
      ∙ if_open-set_user_nonblock v m a c open_ socket
]

-- What the system is given in place of `flags`: for an open socket, O_NONBLOCK as Init left it.
abbrev pub Given : Option (ℕ × FdContext) → ℕ → ℕ → Type 0
Given none flags given = given ≡ flags
Given (some (a, c)) flags given = has_nonblock given ≡ c.is_sys_nonblock

flags_back :
    (sys user : Bool) (flags : ℕ)
    → has_nonblock flags ≡ user
    → (if user
        then with_nonblock (if sys then with_nonblock flags else without_nonblock flags)
        else without_nonblock (if sys then with_nonblock flags else without_nonblock flags))
      ≡ flags
flags_back true true flags h = with_after flags h
flags_back false true flags h = with_after_without flags h
flags_back true false flags h = without_after_with flags h
flags_back false false flags h = without_after flags h

flags_given :
    (sys : Bool) (flags : ℕ)
    → has_nonblock (if sys then with_nonblock flags else without_nonblock flags) ≡ sys
flags_given true flags = has-with flags
flags_given false flags = has-without flags

set_flags-none :
    (fd : ℤ) (flags : ℕ) (m : FdContextManager)
    → context_of fd m ≡ none
    → set_flags fd flags m ≡ (flags, m)
unfolding set_flags
set_flags-none fd flags m h = rw (h, set_flags)

set_flags-some :
    (fd : ℤ) (flags : ℕ) (m : FdContextManager) (a : ℕ) (c : FdContext)
    → context_of fd m ≡ some (a, c)
    → set_flags fd flags m ≡ (
      if c.is_sys_nonblock then with_nonblock flags else without_nonblock flags,
      set_user_nonblock (has_nonblock flags) a c m,
    )
unfolding set_flags
set_flags-some fd flags m a c h = rw (h, set_flags)

get_flags-none :
    (fd : ℤ) (flags : ℕ) (m : FdContextManager)
    → context_of fd m ≡ none
    → get_flags fd flags m ≡ flags
unfolding get_flags
get_flags-none fd flags m h = rw (h, get_flags)

get_flags-some :
    (fd : ℤ) (flags : ℕ) (m : FdContextManager) (a : ℕ) (c : FdContext)
    → context_of fd m ≡ some (a, c)
    → get_flags fd flags m
      ≡ (if c.is_user_nonblock then with_nonblock flags else without_nonblock flags)
unfolding get_flags
get_flags-some fd flags m a c h = rw (h, get_flags)

-- Where the system answers the flags that it was given, F_GETFL gives the program the flags that
-- it set with F_SETFL, for every descriptor. The system is given these flags, save that the
-- O_NONBLOCK of an open socket is the one that its context has for the system.
pub get_flags-set_flags :
    (fd : ℤ) (flags : ℕ) (m : FdContextManager)
    → (get_flags fd (set_flags fd flags m).0 (set_flags fd flags m).1 ≡ flags)
      × Given (context_of fd m) flags (set_flags fd flags m).0
get_flags-set_flags fd flags m = elim (Option-cases (context_of fd m)) [
  | inl e ↦ rw (set_flags-none fd flags m e, e) (get_flags-none fd flags m e, refl)
  | inr ((a, c), e) ↦
      let v = has_nonblock flags in
      let given = if c.is_sys_nonblock then with_nonblock flags else without_nonblock flags in
      rw (set_flags-some fd flags m a c e, e)
        (
          get_flags-some fd given (set_user_nonblock v a c m) a (with_user v c)
                (context_of-set_user_nonblock v fd m a c e)
              ∙ flags_back c.is_sys_nonblock v flags refl,
          flags_given c.is_sys_nonblock flags,
        )
]

set_nonblock-some :
    (fd : ℤ) (v : Bool) (m : FdContextManager) (a : ℕ) (c : FdContext)
    → context_of fd m ≡ some (a, c)
    → set_nonblock fd v m ≡ set_user_nonblock v a c m
unfolding set_nonblock
set_nonblock-some fd v m a c h = rw (h, set_nonblock)

-- Of an open socket, F_GETFL gives the program the O_NONBLOCK that it set with FIONBIO, whatever
-- flags the system answers.
get_flags-set_nonblock :
    (fd : ℤ) (v : Bool) (flags : ℕ) (m : FdContextManager) (a : ℕ) (c : FdContext)
    → context_of fd m ≡ some (a, c)
    → has_nonblock (get_flags fd flags (set_nonblock fd v m)) ≡ v
get_flags-set_nonblock fd v flags m a c h =
    rw
      (
        set_nonblock-some fd v m a c h,
        get_flags-some fd flags (set_user_nonblock v a c m) a (with_user v c)
            (context_of-set_user_nonblock v fd m a c h),
      )
      (flags_given v flags)
