-- ===== src/Tests/GuardRuns.antt =====
-- The theorems on the login guard of a node, and on the hub's limiter and register, at concrete inputs.
use e_shield.Base.{ℕ, ◌+◌, ◌-◌, ◌*◌, ◌≤◌, ◌≡◌, refl, true, false, none, List, [], ◌∷◌, arith}
use e_shield.Base.Dicts.{find, ℕ_key}
use e_shield.Node.LoginLimiter.{login, welcome}
use e_shield.Node.LoginLimiter.Gate.{open_with}
use e_shield.Node.LoginLimiter.Refines.{
  Request, run, answers, gate_answers, login_refines_gate, login_opens_again,
}
use e_shield.Hub.Limiter.{RateLimiter, ns_per_s}
use e_shield.Hub.Limiter.Rate.{accepted, accepted-le}
use e_shield.Hub.Registry.{list}
use e_shield.Hub.Registry.Online as Online
use e_shield.Hub.Registry.Online.{
  Event, heartbeats, cleans, row, shown_online, recent, last_heartbeat, list_shows,
}

-- Five wrong tokens from the address 7, one right one from 8, and a right one from 7 that comes late.
abbrev guesses : List (Request ℕ)
guesses =
    (7, 10, false)
    ∷ (7, 11, false)
    ∷ (8, 12, true)
    ∷ (7, 13, false)
    ∷ (7, 14, false)
    ∷ (7, 15, false)
    ∷ (7, 16, true)
    ∷ []

login_refines_gate_example : answers 7 [] guesses ≡ gate_answers 7 (open_with []) guesses
login_refines_gate_example = login_refines_gate 7 guesses 16 (
  omega arith,
  (
    omega arith,
    (omega arith, (omega arith, (omega arith, (omega arith, (omega arith, (omega arith)))))),
  ),
)

login_opens_again_example : (login (run [] guesses) 7 300_000_000_016 true).1 ≡ welcome
login_opens_again_example =
    login_opens_again 7 guesses 16 300_000_000_016 true
      (
        omega arith,
        (
          omega arith,
          (omega arith, (omega arith, (omega arith, (omega arith, (omega arith, (omega arith)))))),
        ),
      )
      (omega arith)

-- One request a second, and two at once.
abbrev fresh_limiter : RateLimiter ℕ
fresh_limiter = record { buckets = []; rate_per_s = 1; burst = 2 }

unknown_node : find 7 fresh_limiter.buckets ≡ none
unfolding find
unknown_node = refl

accepted-le_example :
    accepted fresh_limiter 7 ((7, 10) ∷ (8, 11) ∷ (7, 12) ∷ (7, 13) ∷ []) * ns_per_s
    ≤ 2 * ns_per_s + (20 - 10) * 1
accepted-le_example =
    accepted-le 7 ((7, 10) ∷ (8, 11) ∷ (7, 12) ∷ (7, 13) ∷ []) fresh_limiter 10 20 unknown_node
      (omega arith, (omega arith, (omega arith, (omega arith, (omega arith)))))

abbrev history : List (Event ℕ)
history = heartbeats 7 10 ∷ heartbeats 8 12 ∷ cleans 20 ∷ heartbeats 7 21 ∷ []

list_shows_example :
    shown_online (row 7 (list (Online.run 5 [] history) 22 5))
    ≡ recent 22 5 (last_heartbeat 7 none history)
list_shows_example =
    list_shows 7 5 history 22
      (omega arith, (omega arith, (omega arith, (omega arith, (omega arith)))))
