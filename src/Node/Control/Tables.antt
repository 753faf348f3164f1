-- ===== src/Node/Control/Tables.antt =====
-- eshield/src/control.rs: the tables of port rules and signatures in the data plane, written as a whole.
-- A write to an array of the loaded program succeeds.
pub mod Rules
pub mod PatternBytes
pub mod Patterns
use e_shield.Base.{
  ℕ, zero, suc, ◌+◌, ◌*◌, ◌%◌, Option, none, some, List, [], ◌∷◌, ◌++◌, ltb, leb, ◌==◌, ◌!=◌,
  if◌then◌else◌, length, take, replicate, min, get_or,
}
use e_shield.Base.Text.{Text}
use e_shield.Base.Results.{Result, ok, err, ◌>>=◌, ◌>>◌, ensure}
use e_shield.Common.Entries.{L7Pattern, PortAclEntry}
use e_shield.Common.Config.{RuntimeConfig, max_port_acl, max_l7_patterns}
use e_shield.DataPlane.Kernel.{Kernel}
use e_shield.DataPlane.State.{State}
use e_shield.Node.Config.Sections.{L7PatternConfig}
use e_shield.Node.Config.PortAcl.{PortAclItem, AclError, to_entry, validate_port_acl_items}
use e_shield.Node.Config.Validate.Lists.{
  ConfigError, bad_pattern, bad_port_acl, validate_l7_patterns,
}

-- `Array::set`, and the loop that clears the first slots.
abbrev pub put_slot {ℓ} : {A : Type ℓ} → ℕ → A → (ℕ → Option A) → ℕ → Option A
put_slot i a table j = if j == i then some a else table j

abbrev pub cleared {ℓ} : {A : Type ℓ} → ℕ → A → (ℕ → Option A) → ℕ → Option A
cleared size default table j = if ltb j size then some default else table j

-- A table, and how its writing ended: after an error it stays as far as it was written.
abbrev pub Written : Type 0 → Type 0 → Type 0
Written A E = (ℕ → Option A) × Result (Unit {0}) E

-- `let entry = …?;` in the loop.
abbrev pub on_entry : {A E : Type 0} → (ℕ → Option A) → Result A E → (A → Written A E) → Written A E
on_entry table (err e) go_on = (table, err e)
on_entry table (ok a) go_on = go_on a

abbrev pub no_entry : PortAclEntry
no_entry = record { protocol = 0; dport_low = 0; dport_high = 0; action = 0 }

abbrev pub no_pattern : L7Pattern
no_pattern = record { signature = 0; mask = 0; pattern_length = 0; action = 0 }

-- `u64::from_le_bytes` of the bytes in an array of eight.
unfoldable pub from_le : Text → ℕ
from_le [] = 0
from_le (c ∷ s) = c + 256 * from_le s

-- The mask's bytes: the given ones, or 0xff for each byte of the pattern.
abbrev pub mask_of : Text → Option Text → Text
mask_of pattern none = replicate (length pattern) 0xff
mask_of pattern (some mask) = mask

unfoldable pub compile_pattern : L7PatternConfig → Result L7Pattern ConfigError
unfolding from_le
compile_pattern pat = do
  ensure (leb (length pat.pattern) 8) bad_pattern
  ensure (length (mask_of pat.pattern pat.mask) == length pat.pattern) bad_pattern
  ok (record {
    signature = from_le pat.pattern;
    mask = from_le (mask_of pat.pattern pat.mask);
    pattern_length = length pat.pattern % 256;
    action = 0;
  })

-- The loop over the patterns from slot `i` on.
unfoldable pub write_patterns :
    ℕ → List L7PatternConfig → (ℕ → Option L7Pattern) → Written L7Pattern ConfigError
unfolding compile_pattern
write_patterns i [] table = (table, ok tt)
write_patterns i (pat ∷ patterns) table =
    on_entry table (compile_pattern pat)
      (λ entry. write_patterns (i + 1) patterns (put_slot i entry table))

-- `sync_config_count`.
abbrev pub sync_count :
    (RuntimeConfig → RuntimeConfig) → Option RuntimeConfig → Option RuntimeConfig
sync_count f none = none
sync_count f (some cfg) = some (f cfg)

module _ (to_lowercase : Text → Text) where
  -- The loop over the items from slot `i` on.
  unfoldable pub write_rules :
      ℕ → List PortAclItem → (ℕ → Option PortAclEntry) → Written PortAclEntry AclError
  write_rules i [] table = (table, ok tt)
  write_rules i (item ∷ items) table =
      if leb max_port_acl i
      then (table, err AclError.too_many)
      else on_entry table (to_entry to_lowercase item)
          (λ entry. write_rules (i + 1) items (put_slot i entry table))

module _ {κ : Kernel} where
  -- After the last entry the count is stored; an error returns before it.
  abbrev pub with_acl_count :
      ℕ → State κ → Result (Unit {0}) AclError → State κ × Result (Unit {0}) AclError
  with_acl_count n s (err e) = (s, err e)
  with_acl_count n s (ok u) = (
    record s {
      config =
          sync_count (λ cfg. record cfg { port_acl_count = min (n % 256) max_port_acl }) s.config;
    },
    ok tt,
  )

  unfoldable pub init_port_acl_map :
      (Text → Text) → List PortAclItem → State κ → State κ × Result (Unit {0}) AclError
  unfolding write_rules
  init_port_acl_map to_lowercase items s =
      let written = write_rules to_lowercase 0 items (cleared max_port_acl no_entry s.port_acl) in
      with_acl_count (length items) (record s { port_acl = written.0 }) written.1

  abbrev pub with_pattern_count :
      ℕ → State κ → Result (Unit {0}) ConfigError → State κ × Result (Unit {0}) ConfigError
  with_pattern_count n s (err e) = (s, err e)
  with_pattern_count n s (ok u) = (
    record s {
      config =
          sync_count (λ cfg. record cfg { l7_pattern_count = min (n % 256) max_l7_patterns })
            s.config;
    },
    ok tt,
  )

  unfoldable pub init_l7_patterns_map :
      List L7PatternConfig → State κ → State κ × Result (Unit {0}) ConfigError
  unfolding write_patterns
  init_l7_patterns_map patterns s =
      let written =
        write_patterns 0 (take max_l7_patterns patterns)
          (cleared max_l7_patterns no_pattern s.l7_patterns) in
      with_pattern_count (length patterns) (record s { l7_patterns = written.0 }) written.1

-- The lists that the control plane shows and stores, beside the data plane.
pub record Tables (κ : Kernel) : Type 0 where
  pub plane : State κ
  pub port_acl_shown : List PortAclItem
  pub patterns_shown : List L7PatternConfig
  pub port_acl_stored : Option (List PortAclItem)
  pub patterns_stored : Option (List L7PatternConfig)

-- What a store holds after a save, if there is a store.
abbrev pub saved {ℓ} : {A : Type ℓ} → A → Option A → Option A
saved a none = none
saved a (some old) = some a

module _ {κ : Kernel} where
  -- The list is shown and stored only once the data plane has it.
  abbrev pub acl_applied :
      List PortAclItem
      → Tables κ
      → State κ × Result (Unit {0}) AclError
      → Tables κ × Result (Unit {0}) AclError
  acl_applied items t (s, err e) = (record t { plane = s }, err e)
  acl_applied items t (s, ok u) = (
    record t { plane = s; port_acl_shown = items; port_acl_stored = saved items t.port_acl_stored },
    ok tt,
  )

  abbrev pub acl_checked :
      (Text → Text)
      → List PortAclItem
      → Tables κ
      → Result (Unit {0}) AclError
      → Tables κ × Result (Unit {0}) AclError
  acl_checked to_lowercase items t (err e) = (t, err e)
  acl_checked to_lowercase items t (ok u) =
      acl_applied items t (init_port_acl_map to_lowercase items t.plane)

  unfoldable pub set_port_acl :
      (Text → Text) → List PortAclItem → Tables κ → Tables κ × Result (Unit {0}) AclError
  unfolding init_port_acl_map
  set_port_acl to_lowercase items t =
      acl_checked to_lowercase items t (validate_port_acl_items to_lowercase items)

  abbrev pub patterns_applied :
      List L7PatternConfig
      → Tables κ
      → State κ × Result (Unit {0}) ConfigError
      → Tables κ × Result (Unit {0}) ConfigError
  patterns_applied patterns t (s, err e) = (record t { plane = s }, err e)
  patterns_applied patterns t (s, ok u) = (
    record t {
      plane = s;
      patterns_shown = patterns;
      patterns_stored = saved patterns t.patterns_stored;
    },
    ok tt,
  )

  abbrev pub patterns_checked :
      List L7PatternConfig
      → Tables κ
      → Result (Unit {0}) ConfigError
      → Tables κ × Result (Unit {0}) ConfigError
  patterns_checked patterns t (err e) = (t, err e)
  patterns_checked patterns t (ok u) =
      patterns_applied patterns t (init_l7_patterns_map patterns t.plane)

  unfoldable pub set_l7_patterns :
      List L7PatternConfig → Tables κ → Tables κ × Result (Unit {0}) ConfigError
  unfolding init_l7_patterns_map
  set_l7_patterns patterns t = patterns_checked patterns t (validate_l7_patterns patterns)
