-- ===== src/Node/Audit/Chain.antt =====
-- eshield/src/audit.rs: which files the check of the chain accepts.
use e_shield.Base.{
  ℕ, suc, ◌+◌, ◌≡◌, ◌≢◌, ◌↔◌, refl, sym, ap, Bool-cases, inl, inr, true, false, none, List, [], ◌∷◌,
  ◌++◌, length, arith,
}
use e_shield.Base.Dicts.{same_list_iff}
use e_shield.Base.Text.{Text}
use e_shield.Node.Audit.{
  AuditEntry, Line, FileAuditBackend, AuditVerifyReport, resume_chain, new, is_empty, hash_of,
  verify_lines, verify_chain, rotates, next_line, append,
}

-- The hash that the next line has to name.
abbrev end_of : Text → List Line → Text
end_of prev [] = prev
end_of prev (l ∷ lines) = end_of l.hash lines

resume_chain-end_of : (lines : List Line) → (resume_chain lines).1 ≡ end_of [] lines
unfolding resume_chain
resume_chain-end_of [] = refl
resume_chain-end_of (l ∷ []) = refl
resume_chain-end_of (l ∷ m ∷ lines) = resume_chain-end_of (m ∷ lines)

abbrev passed : ℕ → AuditVerifyReport
passed checked = record { ok = true; checked = checked; first_bad_seq = none }

module _ (sha256_hex : Text → Text) where
  verify_lines-append :
      (prev : Text) (checked : ℕ) (lines : List Line) (l : Line)
      → (verify_lines sha256_hex prev checked lines).ok ≡ true
      → is_empty l.hash ≡ false
      → l.prev_hash ≡ end_of prev lines
      → hash_of sha256_hex l.seq l.prev_hash l.entry ≡ l.hash
      → verify_lines sha256_hex prev checked (lines ++ l ∷ []) ≡ passed (checked + length lines + 1)
  unfolding verify_lines
  verify_lines-append prev checked [] l ok some_hash linked hashed = ground (
    arith,
    same_list_iff l.prev_hash prev,
    same_list_iff (hash_of sha256_hex l.seq l.prev_hash l.entry) l.hash,
  )
  verify_lines-append prev checked (m ∷ lines) l ok some_hash linked hashed =
      ground (arith, verify_lines-append m.hash (suc checked) lines l)

  -- The file verifies, and the backend knows the hash at its end.
  pub record IsChained (b : FileAuditBackend) : Type 0 where
    pub verifies : (verify_chain sha256_hex b.file).ok ≡ true
    pub linked : b.chain_prev ≡ end_of [] b.file

  new-IsChained :
      (max_size_mb : ℕ) (file : List Line) (backups : List (List Line))
      → (verify_chain sha256_hex file).ok ≡ true
      → IsChained (new max_size_mb file backups)
  unfolding new
  new-IsChained max_size_mb file backups ok = record {
    verifies = ok;
    linked = resume_chain-end_of file;
  }

  end_of-append :
      (prev : Text) (lines : List Line) (l : Line) → end_of prev (lines ++ l ∷ []) ≡ l.hash
  end_of-append prev [] l = refl
  end_of-append prev (m ∷ lines) l = end_of-append m.hash lines l

  -- The entries one after the other.
  unfoldable append_all : (List Line → ℕ) → List AuditEntry → FileAuditBackend → FileAuditBackend
  append_all size_of [] b = b
  append_all size_of (e ∷ entries) b = append_all size_of entries (append sha256_hex size_of e b)

  -- None of the appends rotates the file.
  abbrev Stays : (List Line → ℕ) → List AuditEntry → FileAuditBackend → Type 0
  Stays size_of [] b = Unit
  Stays size_of (e ∷ entries) b =
      (rotates size_of b ≡ false) × Stays size_of entries (append sha256_hex size_of e b)

  module _ (some_hash : (s : Text) → is_empty (sha256_hex s) ≡ false)
      (size_of : List Line → ℕ) where
    hash_of-some :
        (seq : ℕ) (prev : Text) (entry : AuditEntry)
        → is_empty (hash_of sha256_hex seq prev entry) ≡ false
    unfolding hash_of
    hash_of-some seq prev entry = some_hash _

    added :
        (b : FileAuditBackend) (entry : AuditEntry)
        → IsChained b
        → verify_chain sha256_hex (b.file ++ next_line sha256_hex entry b ∷ [])
          ≡ passed (0 + length b.file + 1)
    unfolding verify_chain
    added b entry c =
        let l = next_line sha256_hex entry b in
        verify_lines-append [] 0 b.file l c.verifies (hash_of-some l.seq b.chain_prev entry)
          c.linked refl

    append_stays :
        (b : FileAuditBackend) (entry : AuditEntry)
        → rotates size_of b ≡ false
        → IsChained b
        → IsChained (append sha256_hex size_of entry b)
    unfolding append
    append_stays b entry stays c = rw stays (record {
      verifies = ap (λ r. r.ok) (added b entry c);
      linked = sym (end_of-append [] b.file (next_line sha256_hex entry b));
    })

    -- A line that names an old chain at the start of a new file.
    alone :
        (b : FileAuditBackend) (entry : AuditEntry)
        → b.chain_prev ≢ []
        → (verify_chain sha256_hex (next_line sha256_hex entry b ∷ [])).ok ≡ false
    unfolding verify_chain verify_lines
    alone b entry old =
        let l = next_line sha256_hex entry b in
        ground (arith, hash_of-some l.seq b.chain_prev entry, same_list_iff b.chain_prev [])

    -- Where the file verifies, the backend knows the hash at its end, and that hash is not empty, the file
    -- still verifies after an append exactly if the append does not rotate it.
    pub append-verify_iff :
        (b : FileAuditBackend) (entry : AuditEntry)
        → IsChained b
        → b.chain_prev ≢ []
        → ((verify_chain sha256_hex (append sha256_hex size_of entry b).file).ok ≡ true)
          ↔ (rotates size_of b ≡ false)
    unfolding append
    append-verify_iff b entry c old = elim (Bool-cases (rotates size_of b)) [
      | inl full ↦ rw full ((λ h. absurd (cc (h, alone b entry old))), λ h. absurd (cc))
      | inr stays ↦ rw stays ((λ h. refl), λ h. ap (λ r. r.ok) (added b entry c))
    ]

    appended-IsChained :
        (entries : List AuditEntry) (b : FileAuditBackend)
        → IsChained b
        → Stays size_of entries b
        → IsChained (append_all size_of entries b)
    unfolding append_all
    appended-IsChained [] b c s = c
    appended-IsChained (e ∷ entries) b c s =
        appended-IsChained entries (append sha256_hex size_of e b) (append_stays b e s.0 c) s.1

    -- A log that verifies when the node starts still verifies after any entries, each linked to the one
    -- before it across the restart, as long as no append rotates the file.
    append_all-verifies :
        (max_size_mb : ℕ) (file : List Line) (backups : List (List Line))
        (entries : List AuditEntry)
        → (verify_chain sha256_hex file).ok ≡ true
        → Stays size_of entries (new max_size_mb file backups)
        → (verify_chain sha256_hex
            (append_all size_of entries (new max_size_mb file backups)).file).ok
          ≡ true
    append_all-verifies max_size_mb file backups entries ok stays =
        (appended-IsChained entries (new max_size_mb file backups)
          (new-IsChained max_size_mb file backups ok) stays).verifies
