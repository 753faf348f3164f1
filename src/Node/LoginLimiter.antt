-- ===== src/Node/LoginLimiter.antt =====
-- eshield/src/login_limiter.rs: the guard of the login form against guessing. An address is any type
-- of keys, an `Instant` a number of nanoseconds, and each call takes the time that it reads.
pub mod Gate
pub mod Entry
pub mod Refines
use e_shield.Base.{
  ℕ, ◌+◌, ◌-◌, Bool, true, false, Option, none, some, List, [], ◌∷◌, ◌++◌, ltb, leb, length,
  if◌then◌else◌, not,
}
use e_shield.Base.Dicts.{Key, Dict, find, insert, remove}

abbrev pub max_attempts : ℕ
max_attempts = 5

-- `Duration::from_secs`, in nanoseconds.
abbrev pub window : ℕ
window = 60_000_000_000

abbrev pub lockout : ℕ
lockout = 300_000_000_000

pub record AttemptEntry : Type 0 where
  pub attempts : List ℕ
  pub locked_until : Option ℕ

abbrev pub no_attempts : AttemptEntry
no_attempts = record { attempts = []; locked_until = none }

-- `retain(|t| now.duration_since(*t) < WINDOW)`.
unfoldable pub in_window : ℕ → List ℕ → List ℕ
in_window now [] = []
in_window now (t ∷ attempts) =
    if ltb (now - t) window then t ∷ in_window now attempts else in_window now attempts

-- Whether a lock is still on.
abbrev is_locked : ℕ → Option ℕ → Bool
is_locked now none = false
is_locked now (some locked_until) = ltb now locked_until

-- The answer of `check`: true stands for `Ok(())`, false for its one error.
unfoldable pub check_entry : ℕ → AttemptEntry → AttemptEntry × Bool
unfolding in_window
check_entry now entry =
    let attempts = in_window now entry.attempts in
    if is_locked now entry.locked_until
    then (record entry { attempts = attempts }, false)
    else if leb max_attempts (length attempts)
    then (record { attempts = attempts; locked_until = some (now + lockout) }, false)
    else (record { attempts = attempts; locked_until = none }, true)

unfoldable pub fail_entry : ℕ → AttemptEntry → AttemptEntry
unfolding in_window
fail_entry now entry =
    let attempts = in_window now entry.attempts ++ now ∷ [] in
    record {
      attempts = attempts;
      locked_until =
          if leb max_attempts (length attempts) then some (now + lockout) else entry.locked_until;
    }

abbrev pub entry_or_new : Option AttemptEntry → AttemptEntry
entry_or_new none = no_attempts
entry_or_new (some entry) = entry

-- The statuses 429, 200 and 401.
pub data Answer : Type 0 where
  too_many_requests welcome unauthorized : Answer

module _ {ℓ} {K : Type ℓ} ⦃key : Key K⦄ where
  unfoldable pub check : Dict K AttemptEntry → K → ℕ → Dict K AttemptEntry × Bool
  unfolding check_entry
  check inner ip now =
      let checked = check_entry now (entry_or_new (find ip inner)) in
      (insert ip checked.0 inner, checked.1)

  unfoldable pub record_failure : Dict K AttemptEntry → K → ℕ → Dict K AttemptEntry
  unfolding fail_entry
  record_failure inner ip now = insert ip (fail_entry now (entry_or_new (find ip inner))) inner

  unfoldable pub record_success : Dict K AttemptEntry → K → Dict K AttemptEntry
  record_success inner ip = remove ip inner

  -- eshield/src/web.rs, `login_api_handler` without its audit record: `verified` is what
  -- `auth.verify` says of the token, which is looked at only where `check` lets the address through.
  unfoldable pub login : Dict K AttemptEntry → K → ℕ → Bool → Dict K AttemptEntry × Answer
  unfolding check record_failure record_success
  login inner ip now verified =
      let checked = check inner ip now in
      if not checked.1
      then (checked.0, too_many_requests)
      else if verified
      then (record_success checked.0 ip, welcome)
      else (record_failure checked.0 ip now, unauthorized)
