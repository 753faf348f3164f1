-- ===== src/Hub/Store/Merged.antt =====
-- eshield-hub/src/store.rs: the tables after a merge, as a map from addresses to policies.
use e_shield.Base.{
  ◌≡◌, ◌≢◌, refl, ◌∙◌, Bool-cases, inl, inr, false, Option, none, some, if◌then◌else◌, arith,
}
use e_shield.Base.Dicts.{text_key, find, same_list, same_list_iff}
use e_shield.Common.Ip.{IpKey, ip_key, same_ip, same_ip_iff}
use e_shield.Hub.Store.{Composite, Store, SharedPolicy, replaced, row_at}
use e_shield.Hub.Store.Index.{
  policy_of, IsIndexed, row_kept, new_key, key_address, find-replaced, find-replaced_index,
  replaced-IsSorted, row-Indexed, entry-Indexed,
}

pub replaced-IsIndexed :
    (old : Option Composite) (policy : SharedPolicy) (s : Store)
    → IsIndexed s
    → find policy.ip s.index ≡ old
    → IsIndexed (replaced old policy s)
replaced-IsIndexed old policy s I at_old = record {
  sorted = replaced-IsSorted old policy s I.sorted;
  rows = λ j q h. row-Indexed old policy s j q I at_old h;
  entries = λ ip k h. entry-Indexed old policy s ip k I at_old h;
}

-- A policy that is not replaced is found as before.
policy_other :
    (old key : Option Composite) (policy : SharedPolicy) (s : Store) (ip : IpKey)
    → IsIndexed s
    → find policy.ip s.index ≡ old
    → find ip s.index ≡ key
    → ip ≢ policy.ip
    → row_at key (replaced old policy s) ≡ row_at key s
policy_other old none policy s ip I at_old e other = refl
policy_other old (some k) policy s ip I at_old e other =
    let entry = I.entries ip k e in
    let row = I.rows k entry.0 entry.1 in
    let new : same_list k (new_key policy) ≡ false =
      ground
        (arith, same_list_iff k (new_key policy), key_address entry.0 policy, row.0, entry.2) in
    let unmoved : old ≢ some k = λ e'.
      (let twin = I.entries policy.ip k (at_old ∙ e') in
        other (cc (entry.1, entry.2, twin.1, twin.2))) in
    ground (arith, find-replaced k old policy s, row_kept old k entry.0 s entry.1 unmoved, entry.1)

pub policy_of-replaced :
    (old : Option Composite) (policy : SharedPolicy) (s : Store) (ip : IpKey)
    → IsIndexed s
    → find policy.ip s.index ≡ old
    → policy_of (replaced old policy s) ip
      ≡ (if same_ip ip policy.ip then some policy else policy_of s ip)
unfolding policy_of
policy_of-replaced old policy s ip I at_old = elim (Bool-cases (same_ip ip policy.ip)) [
  | inl same ↦
      rw (find-replaced_index ip old policy s, same)
        (ground (
          arith,
          find-replaced (new_key policy) old policy s,
          same_list_iff (new_key policy) (new_key policy),
        ))
  | inr other ↦
      rw (find-replaced_index ip old policy s, other)
        (policy_other old (find ip s.index) policy s ip I at_old refl
          (ground (arith, same_ip_iff ip policy.ip)))
]
