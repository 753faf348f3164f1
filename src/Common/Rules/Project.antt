-- ===== src/Common/Rules/Project.antt =====
-- eshield-common/src/lib.rs: `project_action`, the actions of a project policy.
use e_shield.Base.{ℕ}

abbrev pub pass : ℕ
pass = 1

abbrev pub drop : ℕ
drop = 2

abbrev pub defend : ℕ
defend = 3
