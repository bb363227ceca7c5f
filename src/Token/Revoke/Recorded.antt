-- ===== src/Token/Revoke/Recorded.antt =====
-- The audit entry that `revokeToken` of src/token.ts leaves of a revocation.
use ambit.Common.{
  ◌≡◌, refl, sym, ap, ◌∙◌, subst, Option, none, some, List, [], ◌∷◌, ◌++◌, String, ℕ, suc, length,
}
use ambit.Records.{Token, RevocationReason, AuditFields, AuditLogEntry}
use ambit.Platform.{Platform}
use ambit.Audit.{new_entry}
use ambit.Audit.Chain.{append_entry-entries}
use ambit.World.{World, Action, ok, pure, ◌>>◌, record_entry, write_entry}
use ambit.World.Frame.{bind-eq-ok, record_entry-accepts}
use ambit.World.Sound.{Extends, Extends-trans}
use ambit.Token.Access.{token_get, token_save}
use ambit.Token.Issue.Bounds.{ok-injective}
use ambit.Token.Sound.{token_get-IsSound, token_save-IsSound, cascade_revoke-IsSound}
use ambit.Token.Revoke.{
  mark_revoked, revocation_fields, revoke_found, revoke_if_found, revoke_token, cascade_revoke,
}

-- Since `before` an entry with this content was added to the audit log.
pub record IsRecorded (before after : World) (content : AuditFields) : Type 0 where
  pub earlier : List AuditLogEntry
  pub entry : AuditLogEntry
  pub later : List AuditLogEntry
  pub appended : after.audit.entries ≡ ((before.audit.entries ++ earlier) ++ entry ∷ []) ++ later
  pub same : entry.covered.content ≡ content

module _ (pf : Platform) (now : ℕ) (actor : Option String) (id : String)
    (reason : RevocationReason) where
  revoke_found-records :
      (t token : Token) (w before : World)
      → Extends pf before w
      → (revoke_found pf now actor id reason t w).0 ≡ ok token
      → IsRecorded before
          (revoke_found pf now actor id reason t w).1
          (revocation_fields id token.subject reason actor)
  unfolding revoke_found write_entry new_entry
  revoke_found-records t token w before grown h =
      let marked = mark_revoked t now reason in
      let content = revocation_fields id t.subject reason actor in
      let last : Action Token = pure marked in
      let cascade : Action (Unit {0}) =
        λ w. cascade_revoke pf now actor (suc (length w.tokens.items)) id w in
      let k3 : Action Token = cascade >> last in
      let k2 : Action Token = record_entry pf content now >> k3 in
      let (u1, saved, rest1) = bind-eq-ok (token_save pf marked) (λ _. k2) w token h in
      let v1 = (token_save pf marked w).1 in
      let h1 = ap (λ x. x.0) (sym rest1) ∙ h in
      let (u2, logged, rest2) = bind-eq-ok (record_entry pf content now) (λ _. k3) v1 token h1 in
      let v2 = (record_entry pf content now v1).1 in
      let h2 = ap (λ x. x.0) (sym rest2) ∙ h1 in
      let (u3, cascaded, rest3) = bind-eq-ok cascade (λ _. last) v2 token h2 in
      let v3 = (cascade v2).1 in
      let same : marked ≡ token = ok-injective (ap (λ x. x.0) (sym rest3) ∙ h2) in
      let until = Extends-trans pf before w v1 grown (token_save-IsSound pf marked w) in
      let onwards = cascade_revoke-IsSound pf now actor (suc (length v2.tokens.items)) id v2 in
      let entry = new_entry pf (pf.random_uuid v1.uuids_drawn) content now v1.audit in
      let written : v2.audit.entries ≡ v1.audit.entries ++ entry ∷ [] =
        ap (λ x. x.1.audit.entries) (record_entry-accepts pf content now v1 refl)
        ∙ append_entry-entries pf entry v1.audit in
      record {
        earlier = until.more;
        entry = entry;
        later = onwards.more;
        appended =
            ap (λ x. x.1.audit.entries) (rest1 ∙ rest2 ∙ rest3)
            ∙ onwards.appended
            ∙ ap (λ x. x ++ onwards.more) (written ∙ ap (λ x. x ++ entry ∷ []) until.appended);
        same = ap (λ x. revocation_fields id x.subject reason actor) same;
      }

  -- A revocation that returns has added an entry for it, with its actor and its reason.
  pub revoke_token-records :
      (token : Token) (w : World)
      → (revoke_token pf now actor id reason w).0 ≡ ok token
      → IsRecorded w
          (revoke_token pf now actor id reason w).1
          (revocation_fields id token.subject reason actor)
  unfolding revoke_token revoke_if_found
  revoke_token-records token w h =
      let k = revoke_if_found pf now actor id reason in
      let (found, read, rest) = bind-eq-ok (token_get pf id) k w token h in
      let v = (token_get pf id w).1 in
      subst (λ x. IsRecorded w x.1 (revocation_fields id token.subject reason actor)) (sym rest)
        (go found v (token_get-IsSound pf id w) (ap (λ x. x.0) (sym rest) ∙ h))
    where
      go :
          (found : Option Token) (v : World)
          → Extends pf w v
          → (revoke_if_found pf now actor id reason found v).0 ≡ ok token
          → IsRecorded w
              (revoke_if_found pf now actor id reason found v).1
              (revocation_fields id token.subject reason actor)
      go none v grown g = absurd (cc)
      go (some t) v grown g = revoke_found-records t token v w grown g
