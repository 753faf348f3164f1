-- ===== src/DataPlane/SynCookie/RoundTrip.antt =====
-- eshield-ebpf/src/syn_cookie.rs: which cookies are accepted, and that a challenge can be answered.
use e_shield.Base.{
  ℕ, ◌+◌, ◌-◌, ◌/◌, ◌≤◌, ◌<◌, ◌≡◌, ◌≢◌, ◌↔◌, ◌⊎◌, refl, sym, ap, ◌∙◌, inl, inr, Bool, true, false,
  Option, none, some, List, ◌==◌, ==_iff, ◌||◌, arith, u32_mod, wrapping_add32, wrapping_sub32,
  swap32, bit_and,
}
use e_shield.Common.Entries.{CookieSecret}
use e_shield.Pure.Cookie.{build_cookie, build_cookie_runtime}
use e_shield.Pure.Cookie.Fields.{build_cookie_fields}
use e_shield.DataPlane.Kernel.{Kernel}
use e_shield.DataPlane.State.{State}
use e_shield.DataPlane.Action.{Action}
use e_shield.DataPlane.Parser.Fields.{tcp_flags, tcp_ack_seq, tcp_flag_ack, tcp_flag_syn}
use e_shield.DataPlane.SynCookie.Cookie.{
  Flow, bucket_of, secret_for, flow_cookie, challenge_cookie, bucket_accepts, accepts,
}
use e_shield.DataPlane.SynCookie.{flow_of, source_of, is_live, handle_ack}

flow_cookie_fields :
    (flow : Flow) (bucket : ℕ) (bytes : List ℕ) (idx : ℕ)
    → idx < 4
    → let cookie = flow_cookie flow bucket bytes idx in
      (cookie / 0x4000_0000 ≡ idx) × (cookie < u32_mod)
unfolding flow_cookie build_cookie_runtime build_cookie
flow_cookie_fields flow bucket bytes idx h = build_cookie_fields _ _ _ _ _ idx bytes h

challenge_cookie-lt :
    (flow : Flow) (secret : CookieSecret) (now idx : ℕ)
    → idx < 4
    → challenge_cookie flow secret now idx < u32_mod
unfolding challenge_cookie
challenge_cookie-lt flow secret now idx h = (flow_cookie_fields flow (bucket_of now) _ idx h).1

-- A cookie that this bucket's secret signs for one of the four classes.
abbrev pub Issued : Flow → CookieSecret → ℕ → ℕ → Type 0
Issued flow secret cookie bucket =
    (bytes : List ℕ) × (idx : ℕ) × (secret_for secret bucket ≡ some bytes)
    × (idx < 4)
    × (cookie ≡ flow_cookie flow bucket bytes idx)

tried_iff :
    (flow : Flow) (cookie bucket : ℕ) (o : Option (List ℕ))
    → cookie < u32_mod
    → (elim o [
      | none ↦ false
      | some bytes ↦ flow_cookie flow bucket bytes (cookie / 0x4000_0000) == cookie
    ]
        ≡ true)
      ↔ ((bytes : List ℕ) × (idx : ℕ) × (o ≡ some bytes)
          × (idx < 4)
          × (cookie ≡ flow_cookie flow bucket bytes idx))
tried_iff flow cookie bucket none h = (λ e. cc, λ i. cc)
tried_iff flow cookie bucket (some bytes) h = (
  λ e. (bytes, cookie / 0x4000_0000, refl, omega arith, sym ((==_iff _ _).0 e)),
  λ (key, idx, same, small, signed).
      let k : bytes ≡ key = cc in
      let top : cookie / 0x4000_0000 ≡ idx =
        ap (λ c. c / 0x4000_0000) signed ∙ (flow_cookie_fields flow bucket key idx small).0 in
      (==_iff _ _).1 (rw (k, top) (sym signed)),
)

bucket_accepts_iff :
    (flow : Flow) (secret : CookieSecret) (cookie bucket : ℕ)
    → cookie < u32_mod
    → (bucket_accepts flow secret cookie bucket ≡ true) ↔ Issued flow secret cookie bucket
bucket_accepts_iff flow secret cookie bucket h =
    tried_iff flow cookie bucket (secret_for secret bucket) h

either : {P Q : Type 0} (a b : Bool) → (a ≡ true) ↔ P → (b ≡ true) ↔ Q → ((a || b) ≡ true) ↔ (P ⊎ Q)
either true b p q = (λ e. inl (p.0 refl), λ x. refl)
either false b p q =
    (λ e. inr (q.0 e), λ x. elim x [ inl y ↦ (let e : false ≡ true = p.1 y in cc) | inr y ↦ q.1 y ])

-- A 32-bit number is accepted as a cookie of a flow exactly when the secret of the current or of
-- the previous bucket signs it for that flow and one of the four classes: nothing else gets in,
-- and every such cookie does.
pub accepts_iff :
    (flow : Flow) (secret : CookieSecret) (now cookie : ℕ)
    → cookie < u32_mod
    → (accepts flow secret now cookie ≡ true)
      ↔ (Issued flow secret cookie (bucket_of now) ⊎ Issued flow secret cookie (bucket_of now - 1))
unfolding accepts
accepts_iff flow secret now cookie h =
    let here = bucket_accepts_iff flow secret cookie (bucket_of now) h in
    let there = bucket_accepts_iff flow secret cookie (bucket_of now - 1) h in
    either (bucket_accepts flow secret cookie (bucket_of now)) _ here there

-- The secrets are the same, or were rotated once: the current one is now the previous one.
abbrev pub Rotated : CookieSecret → CookieSecret → Type 0
Rotated before after =
    (before ≡ after)
    ⊎ ((after.bucket_index ≡ before.bucket_index + 1) × (after.previous ≡ before.current))

kept_secret :
    (before after : CookieSecret) (bucket : ℕ)
    → bucket ≡ before.bucket_index
    → Rotated before after
    → secret_for after bucket ≡ some before.current
unfolding secret_for
kept_secret before after bucket own (inl same) = rw (← same) (ground arith)
kept_secret before after bucket own (inr (index, previous)) = ground arith

-- A challenge signed in the secrets' own bucket is accepted in that bucket and in the next one,
-- whether or not the secrets have been rotated once in between.
pub challenge_cookie-accepts :
    (flow : Flow) (before after : CookieSecret) (now later idx : ℕ)
    → idx < 4
    → bucket_of now ≡ before.bucket_index
    → Rotated before after
    → (bucket_of later ≡ bucket_of now) ⊎ (bucket_of later ≡ bucket_of now + 1)
    → accepts flow after later (challenge_cookie flow before now idx) ≡ true
unfolding challenge_cookie secret_for
challenge_cookie-accepts flow before after now later idx h own rotated soon =
    let bucket : ℕ = bucket_of now in
    let cookie : ℕ = challenge_cookie flow before now idx in
    let signed : cookie ≡ flow_cookie flow bucket before.current idx = ground (arith, own) in
    let bounded : cookie < u32_mod =
      omega (arith, signed, (flow_cookie_fields flow bucket before.current idx h).1) in
    let kept : secret_for after bucket ≡ some before.current =
      kept_secret before after bucket own rotated in
    let issued : Issued flow after cookie bucket = (before.current, idx, kept, h, signed) in
    (accepts_iff flow after later cookie bounded).1 (elim soon [
      | inl same ↦ inl (rw same issued)
      | inr next ↦
          (let back : bucket_of later - 1 ≡ bucket = omega (arith, next) in inr (rw back issued))
    ])

-- With secrets that are two or more buckets behind the clock, no cookie at all is accepted, not
-- even the one with which a challenge is answered at that moment.
stale_secrets_reject :
    (flow : Flow) (secret : CookieSecret) (now cookie : ℕ)
    → secret.bucket_index + 2 ≤ bucket_of now
    → accepts flow secret now cookie ≡ false
unfolding accepts secret_for
stale_secrets_reject flow secret now cookie h = ground arith

module _ {κ : Kernel} where
  -- The ACK of a challenged client: it acknowledges the cookie plus one while the challenge is
  -- live, in the bucket of the challenge or the next one, with secrets rotated at most once since.
  -- It passes, the challenge mark is gone, and a second such ACK is no longer the proxy's concern.
  pub handle_ack_answers :
      (now later ts idx : ℕ) (ip tcp : List ℕ) (before after : CookieSecret) (s : State κ)
      → bit_and (tcp_flags tcp) tcp_flag_ack ≢ 0
      → bit_and (tcp_flags tcp) tcp_flag_syn ≡ 0
      → κ.syn_proxy_conn.get s.syn_proxy_conn (source_of ip) ≡ some ts
      → is_live later ts ≡ true
      → s.cookie_secrets ≡ some after
      → idx < 4
      → bucket_of now ≡ before.bucket_index
      → Rotated before after
      → (bucket_of later ≡ bucket_of now) ⊎ (bucket_of later ≡ bucket_of now + 1)
      → swap32 (tcp_ack_seq tcp)
        ≡ wrapping_add32 (challenge_cookie (flow_of ip tcp) before now idx) 1
      → let r = handle_ack later ip tcp s in
        (r.0 ≡ Action.xdp_pass)
        × (κ.syn_proxy_conn.get r.1.syn_proxy_conn (source_of ip) ≡ none)
        × ((handle_ack later ip tcp r.1).0 ≡ Action.no_action)
  unfolding handle_ack
  handle_ack_answers now later ts idx ip tcp before after s ack syn marked live secrets h own
        rotated soon seq =
      let cookie : ℕ = challenge_cookie (flow_of ip tcp) before now idx in
      let bounded : cookie < u32_mod = challenge_cookie-lt (flow_of ip tcp) before now idx h in
      let back : wrapping_sub32 (swap32 (tcp_ack_seq tcp)) 1 ≡ cookie = omega (arith, seq) in
      let accepted =
        challenge_cookie-accepts (flow_of ip tcp) before after now later idx h own rotated soon in
      ground (
        arith,
        marked,
        live,
        secrets,
        back,
        accepted,
        κ.syn_proxy_conn.get-remove_self s.syn_proxy_conn (source_of ip),
      )
