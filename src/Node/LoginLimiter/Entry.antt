-- ===== src/Node/LoginLimiter/Entry.antt =====
-- eshield/src/login_limiter.rs: one address's entry follows the gate of the specification.
use e_shield.Base.{
  ℕ, ◌+◌, ◌≤◌, ◌<◌, ◌≡◌, refl, Bool, true, false, none, some, List, [], ◌∷◌, ◌++◌, ltb, leb, length,
  arith, if◌then◌else◌, Bool-cases, inl, inr, ◌∙◌, ltb→lt,
}
use e_shield.Node.LoginLimiter.{
  Answer, too_many_requests, welcome, unauthorized, max_attempts, lockout, in_window, AttemptEntry,
  no_attempts, check_entry, fail_entry,
}
use e_shield.Node.LoginLimiter.Gate.{
  Gate, open_with, shut_until, after_wrong, judge, gate_step, UpTo, UpTo-in_window, UpTo-later,
  UpTo-append, in_window-in_window, in_window-past, length-in_window-le,
}

-- An address's entry under the gate, at a time.
abbrev pub Shows : ℕ → AttemptEntry → Gate → Type 0
Shows now entry (open_with wrong) =
    (UpTo now entry.attempts)
    × (entry.locked_until ≡ none)
    × (length entry.attempts < max_attempts)
    × ((later : ℕ) → now ≤ later → in_window later entry.attempts ≡ in_window later wrong)
Shows now entry (shut_until opens) =
    (UpTo now entry.attempts)
    × (entry.locked_until ≡ some opens)
    × (opens ≤ now + lockout)
    × ((later : ℕ) → opens ≤ later → in_window later entry.attempts ≡ [])

pub Shows-later :
    (t now : ℕ) (entry : AttemptEntry) (gate : Gate)
    → t ≤ now
    → Shows t entry gate
    → Shows now entry gate
Shows-later t now entry (open_with wrong) h (u, l, n, a) =
    (UpTo-later t now entry.attempts h u, l, n, λ later h'. a later (omega arith))
Shows-later t now entry (shut_until opens) h (u, l, n, a) =
    (UpTo-later t now entry.attempts h u, l, omega arith, a)

-- What `check` leaves of an entry whose gate is open, or shut for no longer than now.
abbrev Unlocked : ℕ → AttemptEntry → List ℕ → Type 0
Unlocked now entry wrong =
    (UpTo now entry.attempts)
    × (entry.locked_until ≡ none)
    × (length entry.attempts < max_attempts)
    × ((later : ℕ) → now ≤ later → in_window later entry.attempts ≡ in_window later wrong)

-- An entry with the recorded times, locked if they are five.
abbrev recorded : ℕ → List ℕ → AttemptEntry
recorded now attempts = record {
  attempts = attempts;
  locked_until = if leb max_attempts (length attempts) then some (now + lockout) else none;
}

recorded-Shows :
    (now : ℕ) (attempts : List ℕ)
    → UpTo now attempts
    → Shows now (recorded now attempts) (after_wrong now attempts)
recorded-Shows now attempts u = elim (Bool-cases (leb max_attempts (length attempts))) [
  | inl full ↦
      rw full (u, refl, omega arith, λ later h. in_window-past now later attempts u (omega arith))
  | inr few ↦ rw few (u, refl, ground arith, λ later h. refl)
]

failed-Shows :
    (now : ℕ) (entry : AttemptEntry) (wrong : List ℕ)
    → Unlocked now entry wrong
    → Shows now (fail_entry now entry) (judge wrong now false).0
unfolding fail_entry
failed-Shows now entry wrong (u, l, n, a) =
    rw (a now (omega arith), l)
      (recorded-Shows now (in_window now wrong ++ now ∷ [])
        (UpTo-append now (in_window now wrong) past))
  where
    past : UpTo now (in_window now wrong)
    past = rw (← a now (omega arith)) (UpTo-in_window now now entry.attempts u)

judged-Shows :
    (now : ℕ) (entry : AttemptEntry) (wrong : List ℕ) (verified : Bool)
    → Unlocked now entry wrong
    → Shows now
        (if verified then no_attempts else fail_entry now entry)
        (judge wrong now verified).0
judged-Shows now entry wrong true h = (tt, refl, omega arith, λ later h'. refl)
judged-Shows now entry wrong false h = failed-Shows now entry wrong h

-- What `login` makes of one address's entry, once `check` has judged it.
abbrev pub settle : ℕ → Bool → AttemptEntry × Bool → AttemptEntry × Answer
settle now verified (e, false) = (e, too_many_requests)
settle now true (e, true) = (no_attempts, welcome)
settle now false (e, true) = (fail_entry now e, unauthorized)

abbrev entry_step : AttemptEntry → ℕ → Bool → AttemptEntry × Answer
entry_step entry now verified = settle now verified (check_entry now entry)

-- An entry that `check` lets through.
abbrev passed : ℕ → AttemptEntry → AttemptEntry
passed now entry = record { attempts = in_window now entry.attempts; locked_until = none }

step_passed :
    (now : ℕ) (entry : AttemptEntry) (wrong : List ℕ) (verified : Bool)
    → Unlocked now (passed now entry) wrong
    → check_entry now entry ≡ (passed now entry, true)
    → Shows now (entry_step entry now verified).0 (judge wrong now verified).0
      × ((entry_step entry now verified).1 ≡ (judge wrong now verified).1)
step_passed now entry wrong true h e = rw e (judged-Shows now (passed now entry) wrong true h, refl)
step_passed now entry wrong false h e =
    rw e (judged-Shows now (passed now entry) wrong false h, refl)

pub step-Shows :
    (t now : ℕ) (entry : AttemptEntry) (gate : Gate) (verified : Bool)
    → t ≤ now
    → Shows t entry gate
    → Shows now (entry_step entry now verified).0 (gate_step gate now verified).0
      × ((entry_step entry now verified).1 ≡ (gate_step gate now verified).1)
unfolding check_entry
step-Shows t now entry (open_with wrong) verified h (u, l, n, a) =
    step_passed now entry wrong verified
      (
        UpTo-in_window now now entry.attempts (UpTo-later t now entry.attempts h u),
        refl,
        omega (arith, shorter),
        λ later h'. in_window-in_window now later entry.attempts h' ∙ a later (omega arith),
      )
      (rw l (ground (arith, shorter)))
  where
    shorter : length (in_window now entry.attempts) < max_attempts
    shorter = omega (arith, length-in_window-le now entry.attempts)
step-Shows t now entry (shut_until opens) verified h (u, l, n, a) =
    elim (Bool-cases (ltb now opens)) [
      | inl shut ↦
          rw (l, shut)
            (
              (
                UpTo-in_window now now entry.attempts (UpTo-later t now entry.attempts h u),
                refl,
                omega arith,
                λ later h'.
                    in_window-in_window now later entry.attempts
                      (omega (arith, ltb→lt now opens shut))
                    ∙ a later h',
              ),
              refl,
            )
      | inr over ↦ rw over (
          step_passed now entry [] verified
            (
              UpTo-in_window now now entry.attempts (UpTo-later t now entry.attempts h u),
              refl,
              rw (empty over) (omega arith),
              λ later h'.
                  in_window-in_window now later entry.attempts h'
                  ∙ a later (omega (arith, opened over)),
            )
            (rw (l, over, empty over) refl))
    ]
  where
    opened : ltb now opens ≡ false → opens ≤ now
    opened over = ground arith

    empty : ltb now opens ≡ false → in_window now entry.attempts ≡ []
    empty over = a now (opened over)
