-- ===== src/Node/LoginLimiter/Gate.antt =====
-- The specification of the login guard for one address: a gate that five wrong tokens within a minute
-- shut for five minutes, and that counts nothing while it is shut.
use e_shield.Base.{
  ℕ, ◌+◌, ◌≤◌, ◌≡◌, refl, Bool, true, false, List, [], ◌∷◌, ◌++◌, ltb, leb, length, arith,
  if◌then◌else◌,
}
use e_shield.Node.LoginLimiter.{
  Answer, too_many_requests, welcome, unauthorized, max_attempts, window, lockout, in_window,
}

-- The times of the wrong tokens while it is open, or when it opens again.
pub data Gate : Type 0 where
  open_with : List ℕ → Gate
  shut_until : ℕ → Gate

abbrev pub after_wrong : ℕ → List ℕ → Gate
after_wrong now wrong =
    if leb max_attempts (length wrong) then shut_until (now + lockout) else open_with wrong

abbrev pub judge : List ℕ → ℕ → Bool → Gate × Answer
judge wrong now true = (open_with [], welcome)
judge wrong now false = (after_wrong now (in_window now wrong ++ now ∷ []), unauthorized)

abbrev pub gate_step : Gate → ℕ → Bool → Gate × Answer
gate_step (open_with wrong) now verified = judge wrong now verified
gate_step (shut_until opens) now verified =
    if ltb now opens then (shut_until opens, too_many_requests) else judge [] now verified

-- Every time in the list is at most the given one.
abbrev pub UpTo : ℕ → List ℕ → Type 0
UpTo now [] = Unit
UpTo now (t ∷ ts) = (t ≤ now) × UpTo now ts

pub UpTo-in_window : (bound now : ℕ) (ts : List ℕ) → UpTo bound ts → UpTo bound (in_window now ts)
unfolding in_window
UpTo-in_window bound now [] h = tt
UpTo-in_window bound now (t ∷ ts) h = ground (arith, UpTo-in_window bound now ts)

pub UpTo-later : (t now : ℕ) (ts : List ℕ) → t ≤ now → UpTo t ts → UpTo now ts
UpTo-later t now [] h u = tt
UpTo-later t now (x ∷ ts) h u = (omega (arith, u.0), UpTo-later t now ts h u.1)

pub UpTo-append : (now : ℕ) (ts : List ℕ) → UpTo now ts → UpTo now (ts ++ now ∷ [])
UpTo-append now [] u = (omega arith, tt)
UpTo-append now (t ∷ ts) u = (u.0, UpTo-append now ts u.1)

-- An earlier look at the window drops nothing that a later one keeps.
pub in_window-in_window :
    (now later : ℕ) (ts : List ℕ)
    → now ≤ later
    → in_window later (in_window now ts) ≡ in_window later ts
unfolding in_window
in_window-in_window now later [] h = refl
in_window-in_window now later (t ∷ ts) h = ground (arith, in_window-in_window now later ts h)

in_window-append :
    (now : ℕ) (xs ys : List ℕ) → in_window now (xs ++ ys) ≡ in_window now xs ++ in_window now ys
unfolding in_window
in_window-append now [] ys = refl
in_window-append now (x ∷ xs) ys = ground (arith, in_window-append now xs ys)

-- A minute after the last entry the window is empty.
pub in_window-past :
    (t now : ℕ) (ts : List ℕ) → UpTo t ts → t + window ≤ now → in_window now ts ≡ []
unfolding in_window
in_window-past t now [] u h = refl
in_window-past t now (x ∷ ts) u h = ground (arith, in_window-past t now ts)

pub length-in_window-le : (now : ℕ) (ts : List ℕ) → length (in_window now ts) ≤ length ts
unfolding in_window
length-in_window-le now [] = omega arith
length-in_window-le now (t ∷ ts) = ground (arith, length-in_window-le now ts)
