-- ===== src/Node/LoginLimiter/Refines.antt =====
-- eshield/src/login_limiter.rs: each address is answered as by the gate of the specification.
use e_shield.Base.{
  ℕ, ◌+◌, ◌≤◌, ◌≡◌, refl, Bool, true, false, List, [], ◌∷◌, arith, if◌then◌else◌, Bool-cases, inl,
  inr, not, ◌∙◌, ap,
}
use e_shield.Base.Dicts.{
  Key, Dict, find, insert, is_same, find-insert_self, find-insert_other, find-remove_self,
  find-remove_other,
}
use e_shield.Node.LoginLimiter.{
  Answer, too_many_requests, welcome, unauthorized, lockout, AttemptEntry, check_entry, fail_entry,
  entry_or_new, check, record_failure, record_success, login,
}
use e_shield.Node.LoginLimiter.Gate.{Gate, open_with, shut_until, gate_step}
use e_shield.Node.LoginLimiter.Entry.{Shows, Shows-later, settle, step-Shows}

-- A request: the address, the time, and whether its token is right.
abbrev pub Request {ℓ} : Type ℓ → Type ℓ
Request K = K × ℕ × Bool

module _ {ℓ} {K : Type ℓ} where
  -- Times that never run back, the first not before `from`, the last not after `end`.
  abbrev pub InOrder : ℕ → List (Request K) → ℕ → Type 0
  InOrder from [] end = from ≤ end
  InOrder from ((ip, now, verified) ∷ rs) end = (from ≤ now) × InOrder now rs end

module _ {ℓ} {K : Type ℓ} ⦃key : Key K⦄ where
  unfoldable pub run : Dict K AttemptEntry → List (Request K) → Dict K AttemptEntry
  run inner [] = inner
  run inner ((ip, now, verified) ∷ rs) = run (login inner ip now verified).0 rs

  -- What the address `k` is answered.
  unfoldable pub answers : K → Dict K AttemptEntry → List (Request K) → List Answer
  answers k inner [] = []
  answers k inner ((ip, now, verified) ∷ rs) =
      let rest = answers k (login inner ip now verified).0 rs in
      if is_same k ip then (login inner ip now verified).1 ∷ rest else rest

  unfoldable pub gate_answers : K → Gate → List (Request K) → List Answer
  gate_answers k gate [] = []
  gate_answers k gate ((ip, now, verified) ∷ rs) =
      if is_same k ip
      then (let s = gate_step gate now verified in s.1 ∷ gate_answers k s.0 rs)
      else gate_answers k gate rs

  entry_of : K → Dict K AttemptEntry → AttemptEntry
  entry_of k inner = entry_or_new (find k inner)

  -- What `login` does once `check` has judged the entry.
  abbrev finish :
      Dict K AttemptEntry → K → ℕ → Bool → AttemptEntry × Bool → Dict K AttemptEntry × Answer
  finish inner ip now verified (e, false) = (insert ip e inner, too_many_requests)
  finish inner ip now true (e, true) = (record_success (insert ip e inner) ip, welcome)
  finish inner ip now false (e, true) = (record_failure (insert ip e inner) ip now, unauthorized)

  login-finish :
      (inner : Dict K AttemptEntry) (ip : K) (now : ℕ) (verified : Bool)
      → login inner ip now verified
        ≡ finish inner ip now verified (check_entry now (entry_of ip inner))
  unfolding login check entry_of
  login-finish inner ip now verified = go verified (check_entry now (entry_or_new (find ip inner)))
    where
      go :
          (verified : Bool) (c : AttemptEntry × Bool)
          → (if not c.1
              then (insert ip c.0 inner, too_many_requests)
              else if verified
              then (record_success (insert ip c.0 inner) ip, welcome)
              else (record_failure (insert ip c.0 inner) ip now, unauthorized))
            ≡ finish inner ip now verified c
      go verified (e, false) = refl
      go true (e, true) = refl
      go false (e, true) = refl

  finish_own :
      (k : K) (inner : Dict K AttemptEntry) (now : ℕ) (verified : Bool) (c : AttemptEntry × Bool)
      → let done = finish inner k now verified c in
        (entry_of k done.0 ≡ (settle now verified c).0) × (done.1 ≡ (settle now verified c).1)
  unfolding entry_of record_failure record_success
  finish_own k inner now verified (e, false) = (rw (find-insert_self k e inner) refl, refl)
  finish_own k inner now true (e, true) = (rw (find-remove_self k (insert k e inner)) refl, refl)
  finish_own k inner now false (e, true) = (
    rw (find-insert_self k e inner, find-insert_self k (fail_entry now e) (insert k e inner)) refl,
    refl,
  )

  finish_other :
      (k ip : K) (inner : Dict K AttemptEntry) (now : ℕ) (verified : Bool) (c : AttemptEntry × Bool)
      → is_same k ip ≡ false
      → find k (finish inner ip now verified c).0 ≡ find k inner
  unfolding record_failure record_success
  finish_other k ip inner now verified (e, false) h = find-insert_other k ip e inner h
  finish_other k ip inner now true (e, true) h =
      find-remove_other k ip (insert ip e inner) h ∙ find-insert_other k ip e inner h
  finish_other k ip inner now false (e, true) h =
      find-insert_other k ip _ (insert ip e inner) h ∙ find-insert_other k ip e inner h

  -- A request of the address itself, and one of another address.
  login_own :
      (k ip : K) (inner : Dict K AttemptEntry) (gate : Gate) (from now : ℕ) (verified : Bool)
      → k ≡ ip
      → from ≤ now
      → Shows from (entry_of k inner) gate
      → let done = login inner ip now verified in
        Shows now (entry_of k done.0) (gate_step gate now verified).0
        × (done.1 ≡ (gate_step gate now verified).1)
  login_own k ip inner gate from now verified same late s =
      let own = finish_own k inner now verified (check_entry now (entry_of k inner)) in
      rw (← same, login-finish inner k now verified, own.0, own.1)
        (step-Shows from now (entry_of k inner) gate verified late s)

  login_other :
      (k ip : K) (inner : Dict K AttemptEntry) (now : ℕ) (verified : Bool)
      → is_same k ip ≡ false
      → entry_of k (login inner ip now verified).0 ≡ entry_of k inner
  unfolding entry_of
  login_other k ip inner now verified other = rw (login-finish inner ip now verified) (
      ap entry_or_new
        (finish_other k ip inner now verified (check_entry now (entry_of ip inner)) other))

  answers-gate :
      (k : K) (rs : List (Request K)) (inner : Dict K AttemptEntry) (gate : Gate) (from end : ℕ)
      → InOrder from rs end
      → Shows from (entry_of k inner) gate
      → answers k inner rs ≡ gate_answers k gate rs
  unfolding answers gate_answers
  answers-gate k [] inner gate from end o s = refl
  answers-gate k ((ip, now, verified) ∷ rs) inner gate from end (late, o) s =
      elim (Bool-cases (is_same k ip)) [
        | inl same ↦
            let own =
              login_own k ip inner gate from now verified ((key.beq_iff k ip).0 same) late s in
            rw (same, own.1)
              (ap (λ rest. (gate_step gate now verified).1 ∷ rest)
                (answers-gate k rs (login inner ip now verified).0 (gate_step gate now verified).0
                  now end o own.0))
        | inr other ↦ rw other (
            answers-gate k rs (login inner ip now verified).0 gate now end o (
              rw (login_other k ip inner now verified other)
                (Shows-later from now (entry_of k inner) gate late s)))
      ]

  -- From an empty limiter, over any requests of any addresses at times that never run back, an address
  -- is answered exactly as the gate of the specification answers its own requests, whatever the other
  -- addresses do.
  pub login_refines_gate :
      (k : K) (rs : List (Request K)) (end : ℕ)
      → InOrder 0 rs end
      → answers k [] rs ≡ gate_answers k (open_with []) rs
  unfolding find entry_of
  login_refines_gate k rs end o =
      answers-gate k rs [] (open_with []) 0 end o (tt, refl, omega arith, λ later h. refl)

  run-Shows :
      (k : K) (rs : List (Request K)) (inner : Dict K AttemptEntry) (gate : Gate) (from end : ℕ)
      → InOrder from rs end
      → Shows from (entry_of k inner) gate
      → (last : Gate) × Shows end (entry_of k (run inner rs)) last
  unfolding run
  run-Shows k [] inner gate from end o s = (gate, Shows-later from end (entry_of k inner) gate o s)
  run-Shows k ((ip, now, verified) ∷ rs) inner gate from end (late, o) s =
      elim (Bool-cases (is_same k ip)) [
        | inl same ↦
            run-Shows k rs (login inner ip now verified).0 (gate_step gate now verified).0 now end o
              (login_own k ip inner gate from now verified ((key.beq_iff k ip).0 same) late s).0
        | inr other ↦ run-Shows k rs (login inner ip now verified).0 gate now end o (
            rw (login_other k ip inner now verified other)
              (Shows-later from now (entry_of k inner) gate late s))
      ]

  -- After any requests of any addresses from an empty limiter, five minutes after the last of them
  -- every address is let through to the check of its token again.
  pub login_opens_again :
      (k : K) (rs : List (Request K)) (end now : ℕ) (verified : Bool)
      → InOrder 0 rs end
      → end + lockout ≤ now
      → (login (run [] rs) k now verified).1 ≡ (if verified then welcome else unauthorized)
  unfolding find entry_of
  login_opens_again k rs end now verified o h =
      go now verified
        (run-Shows k rs [] (open_with []) 0 end o (tt, refl, omega arith, λ later h. refl)) h
    where
      go :
          (now : ℕ) (verified : Bool)
          → (last : Gate) × Shows end (entry_of k (run [] rs)) last
          → end + lockout ≤ now
          → (login (run [] rs) k now verified).1 ≡ (if verified then welcome else unauthorized)
      go now verified (last, s) h =
          (login_own k k (run [] rs) last end now verified refl (omega arith) s).1
          ∙ opened last verified s
        where
          opened :
              (last : Gate) (verified : Bool)
              → Shows end (entry_of k (run [] rs)) last
              → (gate_step last now verified).1 ≡ (if verified then welcome else unauthorized)
          opened (open_with wrong) true s = refl
          opened (open_with wrong) false s = refl
          opened (shut_until opens) true s = ground arith
          opened (shut_until opens) false s = ground arith
