-- ===== src/Node/HubClient/Failover.antt =====
-- eshield/src/hub_client.rs: a request goes to one hub after the other until one answers.
use native.Mathlib.Nat.{mod-eq_of_lt, mod-lt, mod-add-mod, add-mod_right}
use e_shield.Base.{
  ℕ, zero, suc, ◌+◌, ◌-◌, ◌%◌, ◌<◌, ◌≡◌, ◌⊎◌, ◌∙◌, sym, ap, inl, inr, Option, none, some, length,
  arith,
}
use e_shield.Base.Text.{Text}
use e_shield.Node.HubClient.{
  HubClient, Query, active_hub_url, rotate_hub_url, mark_connected, mark_disconnected, try_each,
  get_with_failover,
}

-- The client that has its address so many places further on.
unfoldable pub turned : ℕ → HubClient → HubClient
turned k client = record client {
  current_url_idx = (client.current_url_idx + k) % length client.urls;
}

turned-rotate :
    (k : ℕ) (client : HubClient) → turned k (rotate_hub_url client) ≡ turned (suc k) client
unfolding turned rotate_hub_url
turned-rotate k client =
    let i = client.current_url_idx in
    let n = length client.urls in
    let order : i + 1 + k ≡ i + suc k = omega arith in
    ap (λ j. record client { current_url_idx = j })
      (mod-add-mod (i + 1) n k ∙ ap (λ m. m % n) order)

turned_zero :
    (client : HubClient) → client.current_url_idx < length client.urls → turned 0 client ≡ client
unfolding turned
turned_zero client h =
    let none_on : client.current_url_idx + 0 ≡ client.current_url_idx = omega arith in
    ap (λ i. record client { current_url_idx = i })
      (ap (λ i. i % length client.urls) none_on ∙ mod-eq_of_lt h)

turned_all :
    (client : HubClient)
    → client.current_url_idx < length client.urls
    → turned (length client.urls) client ≡ client
unfolding turned
turned_all client h =
    ap (λ i. record client { current_url_idx = i })
      (add-mod_right client.current_url_idx (length client.urls) ∙ mod-eq_of_lt h)

module _ {ℓ} {R : Type ℓ} (send : ℕ → Text → Query → Option R) (query : Query) where
  -- What the attempt after `k` others gives, if there are `left` in all.
  unfoldable pub attempt : ℕ → HubClient → ℕ → Option R
  attempt left client k = send (left - suc k) (active_hub_url (turned k client)) query

  -- The first `k` attempts fail.
  abbrev pub Fail : ℕ → HubClient → ℕ → Type ℓ
  Fail left client k = (j : ℕ) → j < k → attempt left client j ≡ none

  -- The first hub that answers is kept.
  pub record Answered (left : ℕ) (client : HubClient) (result : HubClient × Option R) : Type ℓ where
    pub turns : ℕ
    pub response : R
    pub in_bound : turns < left
    pub before : Fail left client turns
    pub answer : attempt left client turns ≡ some response
    pub ends : result ≡ (
      mark_connected (active_hub_url (turned turns client)) query (turned turns client),
      some response,
    )

  -- No hub answers.
  pub record Exhausted (left : ℕ) (client ended : HubClient) (result : HubClient × Option R)
      : Type ℓ where
    pub all_fail : Fail left client left
    pub ends : result ≡ (mark_disconnected ended, none)

  attempt_later :
      (left : ℕ) (client : HubClient) (k : ℕ)
      → attempt left (rotate_hub_url client) k ≡ attempt (suc left) client (suc k)
  unfolding attempt
  attempt_later left client k =
      let same : left - suc k ≡ suc left - suc (suc k) = omega arith in
      ap (λ c. send (left - suc k) (active_hub_url c) query) (turned-rotate k client)
      ∙ ap (λ i. send i (active_hub_url (turned (suc k) client)) query) same

  Fail-later :
      (left : ℕ) (client : HubClient) (k : ℕ)
      → attempt (suc left) client 0 ≡ none
      → Fail left (rotate_hub_url client) k
      → Fail (suc left) client (suc k)
  Fail-later left client k first later zero h = first
  Fail-later left client k first later (suc j) h =
      sym (attempt_later left client j) ∙ later j (omega arith)

  first_attempt :
      (left : ℕ) (client : HubClient)
      → client.current_url_idx < length client.urls
      → attempt (suc left) client 0 ≡ send left (active_hub_url client) query
  unfolding attempt
  first_attempt left client h =
      let now : suc left - 1 ≡ left = omega arith in
      ap (λ i. send i (active_hub_url (turned 0 client)) query) now
      ∙ ap (λ c. send left (active_hub_url c) query) (turned_zero client h)

  rotate-bound :
      (client : HubClient)
      → client.current_url_idx < length client.urls
      → (rotate_hub_url client).current_url_idx < length (rotate_hub_url client).urls
  unfolding rotate_hub_url
  rotate-bound client h = mod-lt (client.current_url_idx + 1) (omega (arith, h))

  abbrev Ends : ℕ → HubClient → HubClient × Option R → Type ℓ
  Ends left client result =
      Answered left client result ⊎ Exhausted left client (turned left client) result

  -- One attempt that fails before the others.
  later-Ends :
      (left : ℕ) (client : HubClient) (result : HubClient × Option R)
      → attempt (suc left) client 0 ≡ none
      → Ends left (rotate_hub_url client) result
      → Ends (suc left) client result
  later-Ends left client result first (inl a) = inl (record {
    turns = suc a.turns;
    response = a.response;
    in_bound = omega (arith, a.in_bound);
    before = Fail-later left client a.turns first a.before;
    answer = sym (attempt_later left client a.turns) ∙ a.answer;
    ends =
        a.ends
        ∙ ap (λ c. (mark_connected (active_hub_url c) query c, some a.response))
            (turned-rotate a.turns client);
  })
  later-Ends left client result first (inr x) = inr (record {
    all_fail = Fail-later left client left first x.all_fail;
    ends = x.ends ∙ ap (λ c. (mark_disconnected c, none)) (turned-rotate left client);
  })

  try_each-Ends :
      (left : ℕ) (client : HubClient)
      → client.current_url_idx < length client.urls
      → Ends left client (try_each send left query client)
  unfolding try_each
  try_each-Ends zero client h = inr (record {
    all_fail = λ j less. absurd (omega arith);
    ends = ap (λ c. (mark_disconnected c, none)) (sym (turned_zero client h));
  })
  try_each-Ends (suc left) client h =
      go (send left (active_hub_url client) query) (first_attempt left client h)
        (try_each-Ends left (rotate_hub_url client) (rotate-bound client h))
    where
      go :
          (r : Option R)
          → attempt (suc left) client 0 ≡ r
          → Ends left (rotate_hub_url client) (try_each send left query (rotate_hub_url client))
          → Ends (suc left) client (elim r [
            | some resp ↦ (mark_connected (active_hub_url client) query client, some resp)
            | none ↦ try_each send left query (rotate_hub_url client)
          ])
      go none first rest = later-Ends left client _ first rest
      go (some resp) first rest = inl (record {
        turns = 0;
        response = resp;
        in_bound = omega arith;
        before = λ j less. absurd (omega arith);
        answer = first;
        ends =
            ap (λ c. (mark_connected (active_hub_url c) query c, some resp))
              (sym (turned_zero client h));
      })

  -- A client whose address is one of its list asks the hubs in turn, from that one on and round the
  -- list: it keeps the first that answers, whose answer it gives and whose address it stays at, with the
  -- connection marked, and if each of them has failed once, it gives nothing, is marked as not
  -- connected, and is back at the address where it began.
  pub get_with_failover_ends :
      (client : HubClient)
      → client.current_url_idx < length client.urls
      → Answered (length client.urls) client (get_with_failover send query client)
        ⊎ Exhausted (length client.urls) client client (get_with_failover send query client)
  unfolding get_with_failover
  get_with_failover_ends client h = go (try_each-Ends (length client.urls) client h)
    where
      go :
          {result : HubClient × Option R}
          → Ends (length client.urls) client result
          → Answered (length client.urls) client result
            ⊎ Exhausted (length client.urls) client client result
      go (inl a) = inl a
      go (inr x) = inr (record {
        all_fail = x.all_fail;
        ends = x.ends ∙ ap (λ c. (mark_disconnected c, none)) (turned_all client h);
      })
