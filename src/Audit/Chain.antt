-- ===== src/Audit/Chain.antt =====
-- The hash chain of src/auditLog.ts: what verification accepts, and that `record` extends it.
use ambit.Common.{
  ℕ, ◌≡◌, refl, sym, ◌↔◌, true, Option, none, some, List, [], ◌∷◌, ◌++◌, String, arith, eq_iff,
}
use ambit.Records.{AuditFields, AuditLogEntry}
use ambit.Platform.{Platform}
use ambit.Audit.{
  AuditLog, last_hash, same_hash, compute_entry_hash, broken_at, new_entry, append_entry,
  verify_audit_chain,
}

-- Every entry names the hash before it (`p` before the first) and carries the hash of its own
-- content.
abbrev pub IsChain : Platform → Option String → List AuditLogEntry → Type 0
IsChain pf p [] = Unit
IsChain pf p (e ∷ es) =
    (e.covered.previous_hash ≡ p)
    × (compute_entry_hash pf e.covered ≡ e.hash)
    × IsChain pf (some e.hash) es

same_hash_iff : (a b : Option String) → (same_hash a b ≡ true) ↔ (a ≡ b)
same_hash_iff none none = ground arith
same_hash_iff none (some b) = ground arith
same_hash_iff (some a) none = ground arith
same_hash_iff (some a) (some b) = ground (arith, eq_iff a b)

module _ (pf : Platform) where
  broken_at-IsChain :
      (p : Option String) (es : List AuditLogEntry) → broken_at pf p es ≡ none → IsChain pf p es
  unfolding broken_at
  broken_at-IsChain p [] h = tt
  broken_at-IsChain p (e ∷ es) h = ground (
    arith,
    same_hash_iff e.covered.previous_hash p,
    eq_iff (compute_entry_hash pf e.covered) e.hash,
    broken_at-IsChain (some e.hash) es,
  )

  IsChain-broken_at :
      (p : Option String) (es : List AuditLogEntry) → IsChain pf p es → broken_at pf p es ≡ none
  unfolding broken_at
  IsChain-broken_at p [] h = refl
  IsChain-broken_at p (e ∷ es) h = ground (
    arith,
    same_hash_iff e.covered.previous_hash p,
    eq_iff (compute_entry_hash pf e.covered) e.hash,
    IsChain-broken_at (some e.hash) es,
  )

  -- `verifyAuditChain` accepts exactly the lists whose every entry links to the one before it, the
  -- first to none, and whose every hash is that of the entry's content.
  pub verify_audit_chain_iff :
      (es : List AuditLogEntry) → ((verify_audit_chain pf es).valid ≡ true) ↔ IsChain pf none es
  unfolding verify_audit_chain
  verify_audit_chain_iff es = ground (arith, broken_at-IsChain none es, IsChain-broken_at none es)

  -- The hash that the next entry must name.
  abbrev pub tip : Option String → List AuditLogEntry → Option String
  tip p [] = p
  tip p (e ∷ es) = tip (some e.hash) es

  tip-last_hash :
      (e : AuditLogEntry) (es : List AuditLogEntry) → tip (some e.hash) es ≡ last_hash (e ∷ es)
  unfolding last_hash
  tip-last_hash e [] = refl
  tip-last_hash e (f ∷ es) = tip-last_hash f es

  pub last_hash-tip : (es : List AuditLogEntry) → last_hash es ≡ tip none es
  unfolding last_hash
  last_hash-tip [] = refl
  last_hash-tip (e ∷ es) = sym (tip-last_hash e es)

  IsChain-append :
      (p : Option String) (es : List AuditLogEntry) (f : AuditLogEntry)
      → IsChain pf p es
      → f.covered.previous_hash ≡ tip p es
      → compute_entry_hash pf f.covered ≡ f.hash
      → IsChain pf p (es ++ f ∷ [])
  IsChain-append p [] f h l k = (l, k, tt)
  IsChain-append p (e ∷ es) f h l k = (h.0, h.1, IsChain-append (some e.hash) es f h.2 l k)

  pub append_entry-entries :
      (entry : AuditLogEntry) (log : AuditLog)
      → (append_entry pf entry log).entries ≡ log.entries ++ entry ∷ []
  unfolding append_entry
  append_entry-entries entry log = ground arith

  -- `record` keeps a valid chain valid, whatever it is given to log, and its entry comes last.
  pub record-IsChain :
      (id : String) (content : AuditFields) (now : ℕ) (log : AuditLog)
      → IsChain pf none log.entries
      → IsChain pf none (append_entry pf (new_entry pf id content now log) log).entries
  unfolding new_entry
  record-IsChain id content now log h = rw (append_entry-entries _ log) (
      IsChain-append none log.entries (new_entry pf id content now log) h
        (last_hash-tip log.entries) refl)
