-- ===== src/Hub/Registry/Online.antt =====
-- eshield-hub/src/registry.rs: the listed status against the history of heartbeats.
use e_shield.Base.{
  ℕ, ◌≤◌, ◌≡◌, refl, Bool, Bool-cases, inl, inr, true, Option, none, some, List, [], ◌∷◌, arith,
  if◌then◌else◌, ◌∙◌,
}
use native.Mathlib.Nat.{le_trans}
use e_shield.Base.Dicts.{
  Key, find, insert, remove, retain, is_same, kept_by, HasUniqueKeys, find-insert, find-retain,
  insert-HasUniqueKeys, retain-HasUniqueKeys,
}
use e_shield.Hub.Registry.{NodeInfo, Nodes, is_fresh, heartbeat, list, cleanup}

pub data Event {ℓ} (K : Type ℓ) : Type ℓ where
  heartbeats : K → ℕ → Event K
  cleans : ℕ → Event K

-- The last heartbeat, if it is within the timeout.
abbrev pub recent : ℕ → ℕ → Option ℕ → Option ℕ
recent now timeout last = kept_by (is_fresh now timeout) last

abbrev seen {ℓ} : {K : Type ℓ} → Option (NodeInfo K) → Option ℕ
seen none = none
seen (some info) = some info.last_seen_ns

-- What was stale when it was cleaned up is stale at every later time.
recent-cleaned {ℓ} :
    {K : Type ℓ} (now later timeout : ℕ) (o : Option (NodeInfo K))
    → now ≤ later
    → recent later timeout (seen (kept_by (λ info. is_fresh now timeout info.last_seen_ns) o))
      ≡ recent later timeout (seen o)
recent-cleaned now later timeout none h = refl
recent-cleaned now later timeout (some info) h = ground arith

module _ {ℓ} {K : Type ℓ} ⦃key : Key K⦄ where
  abbrev pub step : ℕ → Nodes K → Event K → Nodes K
  step timeout nodes (heartbeats name now) = heartbeat nodes name now
  step timeout nodes (cleans now) = cleanup nodes now timeout

  unfoldable pub run : ℕ → Nodes K → List (Event K) → Nodes K
  run timeout nodes [] = nodes
  run timeout nodes (e ∷ events) = run timeout (step timeout nodes e) events

  abbrev time_of : Event K → ℕ
  time_of (heartbeats name now) = now
  time_of (cleans now) = now

  -- Times that never run back, all between `from` and `end`.
  abbrev InTime : ℕ → List (Event K) → ℕ → Type 0
  InTime from [] end = from ≤ end
  InTime from (e ∷ events) end = (from ≤ time_of e) × InTime (time_of e) events end

  -- The specification: the time of the node's last heartbeat in the history, whatever else happened.
  abbrev heard : K → Option ℕ → Event K → Option ℕ
  heard k before (heartbeats name now) = if is_same k name then some now else before
  heard k before (cleans now) = before

  unfoldable pub last_heartbeat : K → Option ℕ → List (Event K) → Option ℕ
  last_heartbeat k before [] = before
  last_heartbeat k before (e ∷ events) = last_heartbeat k (heard k before e) events

  -- The listing's row of a node.
  unfoldable pub row : K → List (NodeInfo K) → Option (NodeInfo K)
  row k [] = none
  row k (info ∷ infos) = if is_same k info.name then some info else row k infos

  -- When the listing shows the node as online, the time it was last seen.
  abbrev pub shown_online : Option (NodeInfo K) → Option ℕ
  shown_online none = none
  shown_online (some info) = if info.online then some info.last_seen_ns else none

  abbrev HasNames : Nodes K → Type ℓ
  HasNames [] = Unit
  HasNames (e ∷ nodes) = (e.1.name ≡ e.0) × HasNames nodes

  row-list :
      (k : K) (nodes : Nodes K) (now timeout : ℕ)
      → HasNames nodes
      → shown_online (row k (list nodes now timeout)) ≡ recent now timeout (seen (find k nodes))
  unfolding row list find
  row-list k [] now timeout h = refl
  row-list k (e ∷ nodes) now timeout h = rw h.0 (elim (Bool-cases (is_same k e.0)) [
    | inl same ↦ rw same refl
    | inr other ↦ rw other (row-list k nodes now timeout h.1)
  ])

  -- A register whose entries bear their keys, each once, and which shows for `k` at every later time
  -- what the last heartbeat says.
  record Follows (k : K) (timeout : ℕ) (last : Option ℕ) (now : ℕ) (nodes : Nodes K) : Type ℓ where
    names : HasNames nodes
    unique : HasUniqueKeys nodes
    agrees :
        (later : ℕ)
        → now ≤ later
        → recent later timeout (seen (find k nodes)) ≡ recent later timeout last

  remove-HasNames : (k : K) (nodes : Nodes K) → HasNames nodes → HasNames (remove k nodes)
  unfolding remove
  remove-HasNames k [] h = tt
  remove-HasNames k (e ∷ nodes) h = ground (arith, remove-HasNames k nodes)

  retain-HasNames :
      (keep : NodeInfo K → Bool) (nodes : Nodes K) → HasNames nodes → HasNames (retain keep nodes)
  unfolding retain
  retain-HasNames keep [] h = tt
  retain-HasNames keep (e ∷ nodes) h = ground (arith, retain-HasNames keep nodes)

  abbrev beat : K → ℕ → NodeInfo K
  beat name t = record { name = name; last_seen_ns = t; online = true }

  step-Follows :
      (k : K) (timeout : ℕ) (last : Option ℕ) (now : ℕ) (nodes : Nodes K) (e : Event K)
      → now ≤ time_of e
      → Follows k timeout last now nodes
      → Follows k timeout (heard k last e) (time_of e) (step timeout nodes e)
  unfolding heartbeat cleanup insert
  step-Follows k timeout last now nodes (heartbeats name t) h f = record {
    names = (refl, remove-HasNames name nodes f.names);
    unique = insert-HasUniqueKeys name (beat name t) nodes f.unique;
    agrees = λ later h'. rw (find-insert k name (beat name t) nodes) (shown later h');
  }
    where
      shown :
          (later : ℕ)
          → t ≤ later
          → recent later timeout
              (seen (if is_same k name then some (beat name t) else find k nodes))
            ≡ recent later timeout (if is_same k name then some t else last)
      shown later h' = elim (Bool-cases (is_same k name)) [
        | inl same ↦ rw same refl
        | inr other ↦ rw other (f.agrees later (le_trans h h'))
      ]
  step-Follows k timeout last now nodes (cleans t) h f = record {
    names = retain-HasNames _ nodes f.names;
    unique = retain-HasUniqueKeys _ nodes f.unique;
    agrees = λ later h'.
        rw (find-retain (λ info. is_fresh t timeout info.last_seen_ns) k nodes f.unique)
          (recent-cleaned t later timeout (find k nodes) h' ∙ f.agrees later (le_trans h h'));
  }

  run-Follows :
      (k : K) (timeout : ℕ) (events : List (Event K)) (last : Option ℕ) (now end : ℕ)
      (nodes : Nodes K)
      → InTime now events end
      → Follows k timeout last now nodes
      → Follows k timeout (last_heartbeat k last events) end (run timeout nodes events)
  unfolding run last_heartbeat
  run-Follows k timeout [] last now end nodes t f = record {
    names = f.names;
    unique = f.unique;
    agrees = λ later h. f.agrees later (le_trans t h);
  }
  run-Follows k timeout (e ∷ events) last now end nodes (h, t) f =
      run-Follows k timeout events (heard k last e) (time_of e) end (step timeout nodes e) t
        (step-Follows k timeout last now nodes e h f)

  -- After any history of heartbeats and clean-ups whose times never run back, the listing at a later
  -- time shows a node as online, last seen at the time of its last heartbeat, if that heartbeat is
  -- within the timeout, and shows no such node as online otherwise.
  pub list_shows :
      (k : K) (timeout : ℕ) (events : List (Event K)) (now : ℕ)
      → InTime 0 events now
      → shown_online (row k (list (run timeout [] events) now timeout))
        ≡ recent now timeout (last_heartbeat k none events)
  unfolding find
  list_shows k timeout events now t =
      let f : Follows k timeout (last_heartbeat k none events) now (run timeout [] events) =
        run-Follows k timeout events none 0 now [] t
          (record { names = tt; unique = tt; agrees = λ later h. refl }) in
      row-list k (run timeout [] events) now timeout f.names ∙ f.agrees now (omega arith)
