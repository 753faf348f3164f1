-- ===== src/Pure/Cookie/Fields.antt =====
-- The fields of a cookie, and the packing of its arguments into two registers.
use e_shield.Base.{
  ℕ, ◌+◌, ◌*◌, ◌/◌, ◌%◌, ◌^◌, ◌≤◌, ◌<◌, ◌≡◌, List, arith, ◌==◌, if◌then◌else◌, u16_mod, u32_mod,
  bit_and, bit_or, ap,
}
use e_shield.Base.Bits.{bit_or-shifted, bit_or-shifted_right, bit_and-le_right}
use e_shield.Pure.Cookie.{
  cookie_hash, build_cookie_words, build_cookie, build_cookie_runtime, secret_words, mss_to_idx,
}

-- Every two-bit class index is read back from the top bits of its cookie, and the cookie is a
-- 32-bit word. `handle_ack` rests on this.
pub build_cookie_fields :
    (saddr daddr sport dport bucket mss_idx : ℕ) (secret : List ℕ)
    → mss_idx < 4
    → let cookie = build_cookie saddr daddr sport dport bucket mss_idx secret in
      (cookie / 0x4000_0000 ≡ mss_idx) × (cookie < u32_mod)
unfolding build_cookie build_cookie_words
build_cookie_fields saddr daddr sport dport bucket mss_idx secret h =
    let hash : ℕ = cookie_hash saddr daddr sport dport bucket mss_idx (secret_words secret) in
    let low : ℕ = bit_and hash 0x3fff_ffff in
    let small : low ≤ 0x3fff_ffff = bit_and-le_right hash 0x3fff_ffff in
    let whole : mss_idx * 0x4000_0000 % u32_mod ≡ mss_idx * 2 ^ 30 = omega arith in
    omega (arith, ap (λ x. bit_or x low) whole, bit_or-shifted 30 mss_idx low)

-- `MSS_TABLE[idx].1` of syn_cookie.rs.
abbrev pub table_mss : ℕ → ℕ
table_mss idx = if idx == 0 then 536 else if idx == 1 then 1300 else 1460

-- The class of a client's MSS is in the table, its table value is not above an announced MSS of at
-- least 536, and every class of the table with this property is at most as high.
mss_to_idx_best :
    (mss other : ℕ)
    → 536 ≤ mss
    → (mss_to_idx mss < 3)
      × (table_mss (mss_to_idx mss) ≤ mss)
      × (other < 3 → table_mss other ≤ mss → other ≤ mss_to_idx mss)
unfolding mss_to_idx
mss_to_idx_best mss other h = ground arith

-- Packing the addresses into one register, and the ports and the bucket into another, loses
-- nothing: the eBPF entry point builds the same cookie as `build_cookie`.
build_cookie_runtime_lem :
    (saddr daddr sport dport bucket mss_idx : ℕ) (secret : List ℕ)
    → saddr < u32_mod
    → daddr < u32_mod
    → sport < u16_mod
    → dport < u16_mod
    → bucket < u32_mod
    → build_cookie_runtime
        (bit_or saddr (daddr * u32_mod))
        (bit_or (bit_or sport (dport * u16_mod)) (bucket * u32_mod))
        secret
        mss_idx
      ≡ build_cookie saddr daddr sport dport bucket mss_idx secret
unfolding build_cookie_runtime build_cookie
build_cookie_runtime_lem saddr daddr sport dport bucket mss_idx secret hs ha hp hd hb =
    let ports : ℕ = bit_or sport (dport * u16_mod) in
    let addrs_sum : bit_or saddr (daddr * u32_mod) ≡ daddr * u32_mod + saddr =
      bit_or-shifted_right 32 daddr saddr hs in
    let ports_sum : ports ≡ dport * u16_mod + sport = bit_or-shifted_right 16 dport sport hp in
    let all_sum : bit_or ports (bucket * u32_mod) ≡ bucket * u32_mod + ports =
      bit_or-shifted_right 32 bucket ports (omega arith) in
    let packed : ℕ = bucket * u32_mod + (dport * u16_mod + sport) in
    let e₀ : (daddr * u32_mod + saddr) % u32_mod ≡ saddr = omega arith in
    let e₁ : (daddr * u32_mod + saddr) / u32_mod ≡ daddr = omega arith in
    let e₂ : packed % u16_mod ≡ sport = omega arith in
    let e₃ : packed / u16_mod % u16_mod ≡ dport = omega arith in
    let e₄ : packed / u32_mod ≡ bucket = omega arith in
    rw (addrs_sum, all_sum, ports_sum, e₀, e₁, e₂, e₃, e₄)
