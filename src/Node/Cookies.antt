-- ===== src/Node/Cookies.antt =====
-- eshield/src/main.rs: the secrets of the SYN cookies, drawn at the start and renewed by the task that
-- ticks once a minute. The random bytes and the clock's seconds are arguments.
use e_shield.Base.{
  ℕ, ◌+◌, ◌/◌, ◌≤◌, ◌<◌, ◌≡◌, refl, ◌⊎◌, inl, inr, Bool-cases, true, Option, none, some, List, [],
  ◌∷◌, leb, if◌then◌else◌, replicate, arith,
}
use e_shield.Common.Entries.{CookieSecret}
use e_shield.DataPlane.SynCookie.Cookie.{Flow, bucket_of, accepts, challenge_cookie}
use e_shield.DataPlane.SynCookie.RoundTrip.{Rotated, challenge_cookie-accepts}

unfoldable init_cookie_secrets : ℕ → List ℕ → List ℕ → CookieSecret
init_cookie_secrets now current previous = record {
  current = current;
  previous = previous;
  bucket_index = now / 60;
}

-- `unwrap_or`: zeros in the present bucket.
abbrev secrets_or_zero : ℕ → Option CookieSecret → CookieSecret
secrets_or_zero bucket none = record {
  current = replicate 16 0;
  previous = replicate 16 0;
  bucket_index = bucket;
}
secrets_or_zero bucket (some secrets) = secrets

abbrev renewed : CookieSecret → List ℕ → ℕ → CookieSecret
renewed secrets random bucket = record {
  current = random;
  previous = secrets.current;
  bucket_index = bucket;
}

-- The slot of the map after one round; an early return leaves it as it was.
unfoldable rotate_cookie_secrets_inner : ℕ → List ℕ → Option CookieSecret → Option CookieSecret
rotate_cookie_secrets_inner now random slot =
    let bucket = now / 60 in
    let current = secrets_or_zero bucket slot in
    if leb bucket current.bucket_index then slot else some (renewed current random bucket)

-- Rounds of `rotate_cookie_secrets`, each at a time with the bytes that it draws.
unfoldable pub rotate_cookie_secrets : List (ℕ × List ℕ) → Option CookieSecret → Option CookieSecret
unfolding rotate_cookie_secrets_inner
rotate_cookie_secrets [] slot = slot
rotate_cookie_secrets ((now, random) ∷ rounds) slot =
    rotate_cookie_secrets rounds (rotate_cookie_secrets_inner now random slot)

-- No round is later than the given bucket.
abbrev UpToBucket : ℕ → List (ℕ × List ℕ) → Type 0
UpToBucket bucket [] = Unit
UpToBucket bucket ((now, random) ∷ rounds) = (now / 60 ≤ bucket) × UpToBucket bucket rounds

UpToBucket-later :
    (b c : ℕ) (rounds : List (ℕ × List ℕ)) → b ≤ c → UpToBucket b rounds → UpToBucket c rounds
UpToBucket-later b c [] h u = tt
UpToBucket-later b c ((now, random) ∷ rounds) h (early, u) =
    (omega arith, UpToBucket-later b c rounds h u)

-- Secrets of a bucket, after rounds up to that bucket, are left alone.
rotated_already :
    (rounds : List (ℕ × List ℕ)) (c : CookieSecret)
    → UpToBucket c.bucket_index rounds
    → rotate_cookie_secrets rounds (some c) ≡ some c
unfolding rotate_cookie_secrets
rotated_already [] c u = refl
rotated_already ((now, random) ∷ rounds) c (early, u) = ground (arith, rotated_already rounds c u)

-- Rounds in the secrets' own bucket or the next one, however many, rotate them at most once.
rotate_cookie_secrets-Rotated :
    (rounds : List (ℕ × List ℕ)) (before : CookieSecret)
    → UpToBucket (before.bucket_index + 1) rounds
    → (after : CookieSecret) × (rotate_cookie_secrets rounds (some before) ≡ some after)
      × Rotated before after
unfolding rotate_cookie_secrets
rotate_cookie_secrets-Rotated [] before u = (before, refl, inl refl)
rotate_cookie_secrets-Rotated ((now, random) ∷ rounds) before (early, u) =
    elim (Bool-cases (leb (now / 60) before.bucket_index)) [
      | inl same ↦ rw same (rotate_cookie_secrets-Rotated rounds before u)
      | inr next ↦
          (let index : now / 60 ≡ before.bucket_index + 1 = ground arith in
            rw next (
              renewed before random (now / 60),
              rotated_already rounds (renewed before random (now / 60)) (rw index u),
              inr (index, refl),
            ))
    ]

-- A challenge that the data plane signs in the secrets' own bucket is accepted in that bucket and in
-- the next one, however often the renewal runs in between and whatever bytes it draws.
pub challenge_survives_rotation :
    (flow : Flow) (before : CookieSecret) (rounds : List (ℕ × List ℕ)) (now later idx : ℕ)
    → idx < 4
    → bucket_of now ≡ before.bucket_index
    → (bucket_of later ≡ bucket_of now) ⊎ (bucket_of later ≡ bucket_of now + 1)
    → UpToBucket (bucket_of later) rounds
    → (after : CookieSecret) × (rotate_cookie_secrets rounds (some before) ≡ some after)
      × (accepts flow after later (challenge_cookie flow before now idx) ≡ true)
challenge_survives_rotation flow before rounds now later idx h own soon u =
    let (after, slot, rotated) =
      rotate_cookie_secrets-Rotated rounds before
        (UpToBucket-later (bucket_of later) (before.bucket_index + 1) rounds (near soon) u) in
    (after, slot, challenge_cookie-accepts flow before after now later idx h own rotated soon)
  where
    near :
        (bucket_of later ≡ bucket_of now) ⊎ (bucket_of later ≡ bucket_of now + 1)
        → bucket_of later ≤ before.bucket_index + 1
    near (inl same) = omega (arith, same, own)
    near (inr next) = omega (arith, next, own)
