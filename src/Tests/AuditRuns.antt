-- ===== src/Tests/AuditRuns.antt =====
-- A log of the administrators' actions, and a hash that only tells its input.
use e_shield.Base.{ℕ, ◌≡◌, ◌≢◌, ◌↔◌, ◌*◌, refl, true, false, none, List, [], ◌∷◌, length}
use e_shield.Base.Text.{Text, bytes}
use e_shield.Node.Audit.{
  AuditEntry, Line, FileAuditBackend, is_empty, next_line, hash_of, verify_chain, rotates, append,
}
use e_shield.Node.Audit.Chain.{IsChained, append-verify_iff}

abbrev told : Text → Text
told s = b'h' ∷ s

told_some : (s : Text) → is_empty (told s) ≡ false
told_some s = refl

abbrev size : List Line → ℕ
size lines = 100 * length lines

abbrev signed_in : AuditEntry
signed_in = record {
  timestamp = bytes "2026-01-01T00:00:00Z";
  actor = bytes "web";
  action = bytes "login";
  detail = bytes "{}";
  source_ip = none;
}

abbrev fresh : FileAuditBackend
fresh = record { max_size = 50; chain_seq = 0; chain_prev = []; file = []; backups = [] }

abbrev started : FileAuditBackend
started = record {
  max_size = 50;
  chain_seq = 1;
  chain_prev = (next_line told signed_in fresh).hash;
  file = next_line told signed_in fresh ∷ [];
  backups = [];
}

started-IsChained : IsChained told started
unfolding verify_chain hash_of
started-IsChained = record { verifies = refl; linked = refl }

started_some : started.chain_prev ≢ []
unfolding hash_of
started_some = λ e. absurd (cc e)

append-verify_iff_example :
    ((verify_chain told (append told size signed_in started).file).ok ≡ true)
    ↔ (rotates size started ≡ false)
append-verify_iff_example =
    append-verify_iff told told_some size started signed_in started-IsChained started_some
