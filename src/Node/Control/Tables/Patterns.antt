-- ===== src/Node/Control/Tables/Patterns.antt =====
-- eshield/src/control.rs: the table of signatures against the list that it is written from.
use e_shield.Base.{
  ℕ, ◌+◌, ◌%◌, ◌≤◌, ◌<◌, ◌≡◌, ◌↔◌, ◌⊎◌, refl, ◌∙◌, Bool, inl, inr, true, false, Option, some, List,
  [], ◌∷◌, if◌then◌else◌, length, arith, min, take,
}
use e_shield.Base.Text.{Text}
use e_shield.Base.Results.{Result, ok, err}
use e_shield.Common.Entries.{L7Pattern}
use e_shield.Common.Config.{RuntimeConfig, max_l7_patterns}
use e_shield.DataPlane.Kernel.{Kernel}
use e_shield.DataPlane.L7Scan.{scan_loop, u64_at}
use e_shield.Node.Config.Sections.{L7PatternConfig}
use e_shield.Node.Config.Validate.Lists.{
  ConfigError, all_pass, pattern_passes, validate_l7_patterns,
}
use e_shield.Node.Control.Tables.{
  Tables, Written, cleared, no_pattern, put_slot, from_le, write_patterns, init_l7_patterns_map,
  set_l7_patterns, with_pattern_count, patterns_applied, patterns_checked,
}
use e_shield.Node.Control.Tables.PatternBytes.{
  AreBytes, u64-from_le, AllHaveBytes, AnyAgrees, passed, checked, take-all, compiled,
  compile_pattern-ok, pattern_hits_iff,
}

module _ (payload : Text) where
  -- A table that was written from slot `i` on.
  record Loaded (patterns : List L7PatternConfig) (i : ℕ) (table : ℕ → Option L7Pattern)
      (w : Written L7Pattern ConfigError) : Type 0 where
    finished : w.1 ≡ ok tt
    kept : (j : ℕ) → j < i → w.0 j ≡ table j
    found :
        (scan_loop w.0 (from_le payload) i (length patterns) ≡ true) ↔ AnyAgrees payload patterns

  either :
      (hit rest : Bool) {P Q : Type 0}
      → ((hit ≡ true) ↔ P)
      → ((rest ≡ true) ↔ Q)
      → ((if hit then true else rest) ≡ true) ↔ (P ⊎ Q)
  either true rest p q = ((λ h. inl (p.0 refl)), λ h. refl)
  either false rest p q =
      ((λ h. inr (q.0 h)), λ h. elim h [ inl x ↦ absurd (let e = p.1 x in cc) | inr y ↦ q.1 y ])

  patterns_loop :
      (patterns : List L7PatternConfig) (i : ℕ) (table : ℕ → Option L7Pattern)
      → all_pass pattern_passes patterns ≡ true
      → AllHaveBytes patterns
      → length payload ≡ 8
      → AreBytes payload
      → Loaded patterns i table (write_patterns i patterns table)
  unfolding write_patterns scan_loop
  patterns_loop [] i table h b l bp = record {
    finished = refl;
    kept = λ j lt. refl;
    found = ((λ e. absurd (cc)), λ e. absurd e);
  }
  patterns_loop (pat ∷ patterns) i table h b l bp =
      let (p, h') = passed pat patterns h in
      let rest = patterns_loop patterns (i + 1) (put_slot i (compiled pat) table) h' b.1 l bp in
      let own : put_slot i (compiled pat) table i ≡ some (compiled pat) = ground arith in
      rw (compile_pattern-ok pat p) (record {
        finished = rest.finished;
        kept = λ j lt. rest.kept j (omega arith) ∙ before j lt;
        found =
            rw (rest.kept i (omega arith) ∙ own)
              (either _ _ (pattern_hits_iff pat payload p b.0 l bp) rest.found);
      })
    where
      before : (j : ℕ) → j < i → put_slot i (compiled pat) table j ≡ table j
      before j lt = ground arith

module _ {κ : Kernel} where
  -- The signatures in the data plane are those of the list.
  abbrev pub Scans :
      Text
      → List L7PatternConfig
      → RuntimeConfig
      → Tables κ × Result (Unit {0}) ConfigError
      → Type 0
  Scans payload patterns cfg r =
      (r.1 ≡ ok tt)
      × (r.0.patterns_shown ≡ patterns)
      × (r.0.plane.config ≡ some (record cfg { l7_pattern_count = length patterns }))
      × ((scan_loop r.0.plane.l7_patterns (u64_at payload) 0 (length patterns) ≡ true)
          ↔ AnyAgrees (take 8 payload) patterns)

  applied-Scans :
      (patterns : List L7PatternConfig) (t : Tables κ) (cfg : RuntimeConfig) (payload : Text)
      (table : ℕ → Option L7Pattern) (w : Written L7Pattern ConfigError)
      → t.plane.config ≡ some cfg
      → length patterns ≤ max_l7_patterns
      → Loaded (take 8 payload) patterns 0 table w
      → Scans payload patterns cfg (
          patterns_applied patterns t
            (with_pattern_count (length patterns) (record t.plane { l7_patterns = w.0 }) w.1))
  applied-Scans patterns t cfg payload table (w, err e) here fits loaded =
      absurd (let e = loaded.finished in cc)
  applied-Scans patterns t cfg payload table (w, ok u) here fits loaded =
      let count : min (length patterns % 256) max_l7_patterns ≡ length patterns = omega arith in
      (refl, refl, rw (here, count) refl, rw (u64-from_le payload) loaded.found)

  -- A list of signatures that passes the check is loaded without an error, shown and counted; from
  -- then on the scan of a payload of at least eight bytes finds a signature exactly if the first
  -- eight bytes agree with some pattern of the list wherever the bits of its mask are set.
  pub set_l7_patterns-Scans :
      (patterns : List L7PatternConfig) (t : Tables κ) (cfg : RuntimeConfig) (payload : Text)
      → t.plane.config ≡ some cfg
      → validate_l7_patterns patterns ≡ ok tt
      → AllHaveBytes patterns
      → length (take 8 payload) ≡ 8
      → AreBytes (take 8 payload)
      → Scans payload patterns cfg (set_l7_patterns patterns t)
  unfolding set_l7_patterns init_l7_patterns_map
  set_l7_patterns-Scans patterns t cfg payload here valid b l bp =
      let (fits, each) = checked patterns valid in
      let table = cleared max_l7_patterns no_pattern t.plane.l7_patterns in
      let loaded : Loaded (take 8 payload) patterns 0 table
          (write_patterns 0 (take max_l7_patterns patterns) table) =
        rw (take-all max_l7_patterns patterns fits)
          (patterns_loop (take 8 payload) patterns 0 table each b l bp) in
      go (validate_l7_patterns patterns) valid (
        applied-Scans patterns t cfg payload table
          (write_patterns 0 (take max_l7_patterns patterns) table) here fits loaded)
    where
      go :
          (r : Result (Unit {0}) ConfigError)
          → r ≡ ok tt
          → Scans payload patterns cfg
              (patterns_applied patterns t (init_l7_patterns_map patterns t.plane))
          → Scans payload patterns cfg (patterns_checked patterns t r)
      go (ok u) e s = s
      go (err x) e s = absurd (cc)
