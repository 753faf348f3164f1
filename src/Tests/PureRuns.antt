-- ===== src/Tests/PureRuns.antt =====
-- The theorems on eshield-common/src/pure.rs at concrete inputs.
use e_shield.Base.{ℕ, ◌/◌, ◌%◌, ◌≡◌, ◌⊎◌, refl, false, some, List, [], ◌∷◌, ◌++◌, arith}
use e_shield.Pure.Block.{merge_block_entry}
use e_shield.Pure.Block.Merge.{Blocks, merge_block_entry-Blocks}
use e_shield.Pure.Checksum.{checksum}
use e_shield.Pure.Checksum.Verify.{checksum_verifies}
use e_shield.Tests.Machine.{blocked_till_9}

merge_block_entry-Blocks_example :
    let merged = merge_block_entry (some blocked_till_9) 6 20 2 false in
    (Blocks 9 15 ⊎ Blocks 20 15 → Blocks merged.blocked_until_ns 15)
    × (Blocks merged.blocked_until_ns 15 → Blocks 9 15 ⊎ Blocks 20 15)
merge_block_entry-Blocks_example = merge_block_entry-Blocks blocked_till_9 6 20 2 false 15 refl

checksum_verifies_example :
    let front : List ℕ = 69 ∷ 0 ∷ [] in
    let check = checksum (front ++ 0 ∷ 0 ∷ 10 ∷ 1 ∷ []) in
    checksum (front ++ check / 256 ∷ check % 256 ∷ 10 ∷ 1 ∷ []) ≡ 0
checksum_verifies_example =
    checksum_verifies (69 ∷ 0 ∷ []) (10 ∷ 1 ∷ []) (omega arith, (omega arith, tt))
      (omega arith, (omega arith, tt)) refl (omega arith)
