-- ===== src/Audit/Tamper.antt =====
-- Tamper evidence of the hash chain of src/auditLog.ts.
use ambit.Common.{
  ◌≡◌, refl, sym, ◌∙◌, ◌≢◌, ◌⊎◌, inl, inr, true, Option, none, some, List, [], ◌∷◌, String, arith,
  eq_iff, str_eq, Bool-cases, length,
}
use native.Mathlib.Decide.{ℕ_discrete}
use ambit.Records.{UnhashedEntry, AuditLogEntry}
use ambit.Platform.{Platform}
use ambit.Audit.{last_hash, compute_entry_hash, verify_audit_chain}
use ambit.Audit.Chain.{IsChain, tip, last_hash-tip, verify_audit_chain_iff}

String-discrete : Discrete String
String-discrete s t = elim (Bool-cases (str_eq s t)) [
  | inl same ↦ yes ((eq_iff s t).0 same)
  | inr other ↦ no (ground (arith, eq_iff s t))
]

UnhashedEntry-discrete : Discrete UnhashedEntry
UnhashedEntry-discrete = hlevel (ℕ_discrete, String-discrete)

-- Two different entries with the same hash.
abbrev pub Collision : Platform → Type 0
Collision pf =
    (a : UnhashedEntry) × (b : UnhashedEntry) × (a ≢ b)
    × (compute_entry_hash pf a ≡ compute_entry_hash pf b)

module _ (pf : Platform) where
  hash_injective :
      (a b : UnhashedEntry)
      → compute_entry_hash pf a ≡ compute_entry_hash pf b
      → (a ≡ b) ⊎ Collision pf
  hash_injective a b h = elim (UnhashedEntry-discrete a b) [
    | yes same ↦ inl same
    | no other ↦ inr (a, b, other, h)
  ]

  same_tip :
      (p q : Option String) (xs ys : List AuditLogEntry)
      → IsChain pf p xs
      → IsChain pf q ys
      → length xs ≡ length ys
      → tip pf p xs ≡ tip pf q ys
      → ((xs ≡ ys) × (p ≡ q)) ⊎ Collision pf
  same_tip p q [] [] hx hy l t = inl (refl, t)
  same_tip p q [] (y ∷ ys) hx hy l t = absurd (omega arith)
  same_tip p q (x ∷ xs) [] hx hy l t = absurd (omega arith)
  same_tip p q (x ∷ xs) (y ∷ ys) hx hy l t =
      elim (same_tip (some x.hash) (some y.hash) xs ys hx.2 hy.2 (omega arith) t) [
        | inr c ↦ inr c
        | inl same ↦ elim (hash_injective x.covered y.covered (ground arith)) [
          | inr c ↦ inr c
          | inl e ↦ inl (ground arith, ground arith)
        ]
      ]

-- Tamper evidence: of two logs of one length that verify and end in the same hash, either every
-- entry is the same, or two different entries with one hash have been found. So whoever remembers
-- the length and the last hash of a log sees any change of an entry, however the hashes are
-- recomputed.
pub tamper_evident :
    (pf : Platform) (xs ys : List AuditLogEntry)
    → (verify_audit_chain pf xs).valid ≡ true
    → (verify_audit_chain pf ys).valid ≡ true
    → length xs ≡ length ys
    → last_hash xs ≡ last_hash ys
    → (xs ≡ ys) ⊎ Collision pf
tamper_evident pf xs ys hx hy l t =
    elim (same_tip pf none none xs ys ((verify_audit_chain_iff pf xs).0 hx)
      ((verify_audit_chain_iff pf ys).0 hy) l
      (sym (last_hash-tip pf xs) ∙ t ∙ last_hash-tip pf ys)) [
        | inl same ↦ inl same.0
        | inr c ↦ inr c
      ]
