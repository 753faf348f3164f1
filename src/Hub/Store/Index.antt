-- ===== src/Hub/Store/Index.antt =====
-- eshield-hub/src/store.rs: what replacing a row does to the rows and to the index.
use e_shield.Base.{
  ◌≡◌, ◌≢◌, ◌∙◌, ap, Bool-cases, inl, inr, false, Option, none, some, if◌then◌else◌, arith,
}
use e_shield.Base.Dicts.{
  text_key, find, find-insert, find-remove_self, find-remove_other, remove, same_list,
  same_list_iff,
}
use e_shield.Common.Ip.{IpKey, ip_key, same_ip, same_ip_iff}
use e_shield.Hub.Store.{Composite, composite_key, ip_of, Store, SharedPolicy, replaced, row_at}
use e_shield.Hub.Store.Order.{IsSorted, put-IsSorted, remove-IsSorted, find-put}

-- The policy of an address, which the index leads to.
unfoldable pub policy_of : Store → IpKey → Option SharedPolicy
policy_of s ip = row_at (find ip s.index) s

-- The rows stand in order, under the time and the address of their policies, and the index has the key
-- of each of them and of nothing else.
pub record IsIndexed (s : Store) : Type 0 where
  pub sorted : IsSorted s.policies
  pub rows :
      (k : Composite) (p : SharedPolicy)
      → find k s.policies ≡ some p
      → (k ≡ composite_key p.last_seen_ns p.ip) × (find p.ip s.index ≡ some k)
  pub entries :
      (ip : IpKey) (k : Composite)
      → find ip s.index ≡ some k
      → (p : SharedPolicy) × (find k s.policies ≡ some p) × (p.ip ≡ ip)

-- The rows that a replacement keeps.
abbrev pub kept : Option Composite → Composite → Store → Option SharedPolicy
kept none j s = find j s.policies
kept (some old) j s = if same_list j old then none else find j s.policies

abbrev pub new_key : SharedPolicy → Composite
new_key policy = composite_key policy.last_seen_ns policy.ip

pub find-replaced :
    (j : Composite) (old : Option Composite) (policy : SharedPolicy) (s : Store)
    → find j (replaced old policy s).policies
      ≡ (if same_list j (new_key policy) then some policy else kept old j s)
find-replaced j none policy s = find-put j (new_key policy) policy s.policies
find-replaced j (some old) policy s = elim (Bool-cases (same_list old (new_key policy))) [
  | inl same ↦ rw same (
      ground (
        arith,
        find-put j (new_key policy) policy s.policies,
        same_list_iff j old,
        same_list_iff j (new_key policy),
        same_list_iff old (new_key policy),
      ))
  | inr moved ↦ rw moved (
      ground (
        arith,
        find-put j (new_key policy) policy (remove old s.policies),
        same_list_iff j old,
        find-remove_self old s.policies,
        find-remove_other j old s.policies,
      ))
]

pub find-replaced_index :
    (ip : IpKey) (old : Option Composite) (policy : SharedPolicy) (s : Store)
    → find ip (replaced old policy s).index
      ≡ (if same_ip ip policy.ip then some (new_key policy) else find ip s.index)
find-replaced_index ip none policy s = find-insert ip policy.ip (new_key policy) s.index
find-replaced_index ip (some old) policy s = find-insert ip policy.ip (new_key policy) s.index

pub replaced-IsSorted :
    (old : Option Composite) (policy : SharedPolicy) (s : Store)
    → IsSorted s.policies
    → IsSorted (replaced old policy s).policies
replaced-IsSorted none policy s o = put-IsSorted (new_key policy) policy s.policies o
replaced-IsSorted (some old) policy s o = elim (Bool-cases (same_list old (new_key policy))) [
  | inl same ↦ rw same (put-IsSorted (new_key policy) policy s.policies o)
  | inr moved ↦ rw moved (
      put-IsSorted (new_key policy) policy (remove old s.policies)
        (remove-IsSorted old s.policies o))
]

pub kept_row :
    (old : Option Composite) (j : Composite) (q : SharedPolicy) (s : Store)
    → kept old j s ≡ some q
    → (find j s.policies ≡ some q) × (old ≢ some j)
kept_row none j q s h = (h, λ e. absurd (cc))
kept_row (some old) j q s h = ground (arith, same_list_iff j old)

pub row_kept :
    (old : Option Composite) (j : Composite) (q : SharedPolicy) (s : Store)
    → find j s.policies ≡ some q
    → old ≢ some j
    → kept old j s ≡ some q
row_kept none j q s h n = h
row_kept (some old) j q s h n = ground (arith, same_list_iff j old)

-- A row of the new policies and what the index tells of it.
pub row-Indexed :
    (old : Option Composite) (policy : SharedPolicy) (s : Store) (j : Composite) (q : SharedPolicy)
    → IsIndexed s
    → find policy.ip s.index ≡ old
    → find j (replaced old policy s).policies ≡ some q
    → (j ≡ new_key q) × (find q.ip (replaced old policy s).index ≡ some j)
row-Indexed old policy s j q I at_old h = elim (Bool-cases (same_list j (new_key policy))) [
  | inl same ↦ ground (
    arith,
    find-replaced j old policy s,
    find-replaced_index policy.ip old policy s,
    same_list_iff j (new_key policy),
    same_ip_iff policy.ip policy.ip,
  )
  | inr other ↦
      (let stays : kept old j s ≡ some q = ground (arith, find-replaced j old policy s) in
        let row = kept_row old j q s stays in
        let before = I.rows j q row.0 in
        (
          before.0,
          ground (
            arith,
            find-replaced_index q.ip old policy s,
            same_ip_iff q.ip policy.ip,
            row.1,
            before.1,
          ),
        ))
]

-- Two addresses have two keys.
pub key_address : (p q : SharedPolicy) → new_key p ≡ new_key q → p.ip ≡ q.ip
key_address p q h = ap ip_of h

pub entry-Indexed :
    (old : Option Composite) (policy : SharedPolicy) (s : Store) (ip : IpKey) (k : Composite)
    → IsIndexed s
    → find policy.ip s.index ≡ old
    → find ip (replaced old policy s).index ≡ some k
    → (p : SharedPolicy) × (find k (replaced old policy s).policies ≡ some p) × (p.ip ≡ ip)
entry-Indexed old policy s ip k I at_old h = elim (Bool-cases (same_ip ip policy.ip)) [
  | inl same ↦ (
    policy,
    ground (
      arith,
      find-replaced k old policy s,
      find-replaced_index ip old policy s,
      same_list_iff k (new_key policy),
    ),
    ground (arith, same_ip_iff ip policy.ip),
  )
  | inr other ↦
      (let stays : find ip s.index ≡ some k = ground (arith, find-replaced_index ip old policy s) in
        let entry = I.entries ip k stays in
        let row = I.rows k entry.0 entry.1 in
        let distinct : entry.0.ip ≢ policy.ip =
          λ e. ground (arith, entry.2, same_ip_iff ip policy.ip) in
        let new : same_list k (new_key policy) ≡ false =
          ground (arith, same_list_iff k (new_key policy), key_address entry.0 policy, row.0) in
        let unmoved : old ≢ some k = λ e.
          (let twin = I.entries policy.ip k (at_old ∙ e) in
            distinct (cc (entry.1, twin.1, twin.2))) in
        (
          entry.0,
          ground (arith, find-replaced k old policy s, row_kept old k entry.0 s entry.1 unmoved),
          entry.2,
        ))
]
