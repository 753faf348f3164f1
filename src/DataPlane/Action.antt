-- ===== src/DataPlane/Action.antt =====
-- The actions of the XDP program. The code's sentinel `NO_ACTION` (u32::MAX) is a constructor.
use e_shield.Base.{Bool, true, false}

pub data Action : Type 0 where
  no_action xdp_drop xdp_pass xdp_tx : Action

abbrev pub is_tx : Action → Bool
is_tx Action.xdp_tx = true
is_tx _ = false
