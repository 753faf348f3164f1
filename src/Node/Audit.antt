-- ===== src/Node/Audit.antt =====
-- eshield/src/audit.rs: the log of the administrators' actions as a chain of hashes in a file. SHA-256 in
-- hexadecimal digits and the length of the encoded lines are arguments; a line is what its JSON text
-- stands for, an absent field is empty, and errors of the file system are not modelled.
pub mod Chain
use e_shield.Base.{
  ℕ, zero, suc, ◌+◌, ◌*◌, ◌/◌, ◌%◌, Bool, true, false, ◌||◌, ◌&&◌, not, Option, none, some, List,
  [], ◌∷◌, ◌++◌, ltb, ◌==◌, ◌!=◌, if◌then◌else◌, length, take, drop, min, u64_max, u64_mod,
}
use e_shield.Base.Dicts.{same_list}
use e_shield.Base.Text.{Text, bytes}

-- The action and the detail are their JSON texts.
pub record AuditEntry : Type 0 where
  pub timestamp : Text
  pub actor : Text
  pub action : Text
  pub detail : Text
  pub source_ip : Option Text

-- The memory backend keeps the newest entries.
pub record MemoryAuditBackend : Type 0 where
  pub entries : List AuditEntry
  pub max_entries : ℕ

-- `while len > max { pop_front }`.
abbrev newest_of : ℕ → List AuditEntry → List AuditEntry
newest_of max_entries [] = []
newest_of max_entries (e ∷ entries) =
    if ltb max_entries (length (e ∷ entries)) then newest_of max_entries entries else e ∷ entries

unfoldable remember : AuditEntry → MemoryAuditBackend → MemoryAuditBackend
remember entry backend = record backend {
  entries = newest_of backend.max_entries (backend.entries ++ entry ∷ []);
}

-- `{}` of a `u64`: at most twenty digits.
unfoldable digits : ℕ → ℕ → Text → Text
digits zero n rest = rest
digits (suc left) n rest =
    if n / 10 == 0 then (n % 10 + b'0') ∷ rest else digits left (n / 10) ((n % 10 + b'0') ∷ rest)

unfoldable display : ℕ → Text
unfolding digits
display n = digits 20 n []

abbrev text_or_empty : Option Text → Text
text_or_empty none = []
text_or_empty (some s) = s

unfoldable canonical_entry : AuditEntry → Text
canonical_entry entry =
    entry.timestamp
    ++ bytes "|"
    ++ entry.actor
    ++ bytes "|"
    ++ entry.action
    ++ bytes "|"
    ++ entry.detail
    ++ bytes "|"
    ++ text_or_empty entry.source_ip

pub record Line : Type 0 where
  pub seq : ℕ
  pub prev_hash : Text
  pub hash : Text
  pub entry : AuditEntry

-- The file at the path is empty if it is not there; the backups are the newest first.
pub record FileAuditBackend : Type 0 where
  pub max_size : ℕ
  pub chain_seq : ℕ
  pub chain_prev : Text
  pub file : List Line
  pub backups : List (List Line)

abbrev max_backups : ℕ
max_backups = 3

unfoldable pub resume_chain : List Line → ℕ × Text
resume_chain [] = (0, [])
resume_chain (l ∷ []) = (l.seq, l.hash)
resume_chain (l ∷ m ∷ lines) = resume_chain (m ∷ lines)

unfoldable pub new : ℕ → List Line → List (List Line) → FileAuditBackend
unfolding resume_chain
new max_size_mb file backups =
    let chain = resume_chain file in
    record {
      max_size = min (max_size_mb * 1_048_576) u64_max;
      chain_seq = chain.0;
      chain_prev = chain.1;
      file = file;
      backups = backups;
    }

abbrev pub is_empty : Text → Bool
is_empty [] = true
is_empty (c ∷ s) = false

pub record AuditVerifyReport : Type 0 where
  pub ok : Bool
  pub checked : ℕ
  pub first_bad_seq : Option ℕ

-- `maybe_rotate`: a file that is not there is not over the size.
abbrev pub rotates : (List Line → ℕ) → FileAuditBackend → Bool
rotates size_of b = b.max_size != 0 && ltb b.max_size (size_of b.file)

module _ (sha256_hex : Text → Text) where
  unfoldable pub hash_of : ℕ → Text → AuditEntry → Text
  unfolding display canonical_entry
  hash_of seq prev entry =
      sha256_hex (display seq ++ bytes "|" ++ prev ++ bytes "|" ++ canonical_entry entry)

  -- The loop of `verify_chain`. A line without a hash is skipped, and the next one starts from nothing.
  unfoldable pub verify_lines : Text → ℕ → List Line → AuditVerifyReport
  unfolding hash_of
  verify_lines prev checked [] = record { ok = true; checked = checked; first_bad_seq = none }
  verify_lines prev checked (l ∷ lines) =
      let rest = verify_lines l.hash (suc checked) lines in
      if is_empty l.hash
      then rest
      else if not (same_list l.prev_hash prev)
          || not (same_list (hash_of l.seq l.prev_hash l.entry) l.hash)
      then record { ok = false; checked = suc checked; first_bad_seq = some l.seq }
      else rest

  unfoldable pub verify_chain : List Line → AuditVerifyReport
  unfolding verify_lines
  verify_chain lines = verify_lines [] 0 lines

  abbrev pub next_line : AuditEntry → FileAuditBackend → Line
  next_line entry b =
      let seq = (b.chain_seq + 1) % u64_mod in
      record {
        seq = seq;
        prev_hash = b.chain_prev;
        hash = hash_of seq b.chain_prev entry;
        entry = entry;
      }

  -- The line is made before the rotation, which then starts a new chain.
  unfoldable pub append : (List Line → ℕ) → AuditEntry → FileAuditBackend → FileAuditBackend
  unfolding hash_of
  append size_of entry b =
      let line = next_line entry b in
      if rotates size_of b
      then record b {
        chain_seq = 0;
        chain_prev = [];
        file = line ∷ [];
        backups = take max_backups (b.file ∷ b.backups);
      }
      else record b { chain_seq = line.seq; chain_prev = line.hash; file = b.file ++ line ∷ [] }
