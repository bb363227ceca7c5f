-- ===== src/Token/Revoke/Ends.antt =====
-- What `revokeToken` of src/token.ts leaves behind: no active token under a revoked one.
use ambit.Common.{
  ℕ, suc, ◌≡◌, refl, sym, ap, ◌∙◌, subst, inl, inr, Bool, true, false, Option, none, some,
  some-injective, String, length, Bool-cases,
}
use ambit.Records.{Token, RevocationReason}
use ambit.Platform.{Platform}
use ambit.Store.{Store, get}
use ambit.World.{World, Action, ok, pure, ◌>>◌, record_entry}
use ambit.World.Frame.{bind-eq-ok, record_entry-SameStores}
use ambit.Token.Access.{token_get, token_save, put_token}
use ambit.Token.Access.Reads.{get-put_token, token_get-reads, token_save-writes, read-eq}
use ambit.Token.Enforce.{is_active}
use ambit.Token.Revoke.{
  mark_revoked, revocation_fields, cascade_revoke, revoke_found, revoke_if_found, revoke_token,
}
use ambit.Token.Revoke.Closure.{IsKeyed, IsClosedBut, IsClosed, Cascaded, Or, put-Cascaded}
use ambit.Token.Revoke.Cascade.{cascade_revoke-Cascades}

-- Whether an active token is stored under the id.
unfoldable pub holds_active : String → Store Token → Bool
holds_active id s = elim (get id s) [ none ↦ false | some t ↦ is_active t.status ]

-- After a revocation: the token is not active, and no active token is left under a revoked one.
pub record IsRevoked (id : String) (after : Store Token) : Type 0 where
  pub keyed : IsKeyed after
  pub closed : IsClosed after
  pub gone : holds_active id after ≡ false

module _ (pf : Platform) (now : ℕ) (actor : Option String) where
  revoke_found-Cascaded :
      (id : String) (reason : RevocationReason) (t r : Token) (w : World)
      → t.id ≡ id
      → IsKeyed w.tokens
      → IsClosed w.tokens
      → (revoke_found pf now actor id reason t w).0 ≡ ok r
      → Cascaded
          (λ p. ⊥)
          (revoke_found pf now actor id reason t w).1.tokens
          (put_token pf (mark_revoked t now reason) w).tokens
  unfolding revoke_found
  revoke_found-Cascaded id reason t r w here keyed closed h =
      let marked = mark_revoked t now reason in
      let content = revocation_fields id t.subject reason actor in
      let cascade : Action (Unit {0}) =
        λ w. cascade_revoke pf now actor (suc (length w.tokens.items)) id w in
      let m1 = token_save pf marked in
      let m2 = record_entry pf content now in
      let (u1, saved, r1) = bind-eq-ok m1 (λ _. m2 >> (cascade >> pure marked)) w r h in
      let v1 = (m1 w).1 in
      let h1 = ap (λ x. x.0) (sym r1) ∙ h in
      let (u2, recorded, r2) = bind-eq-ok m2 (λ _. cascade >> pure marked) v1 r h1 in
      let v2 = (m2 v1).1 in
      let h2 = ap (λ x. x.0) (sym r2) ∙ h1 in
      let (u3, ran, r3) = bind-eq-ok cascade (λ _. pure marked) v2 r h2 in
      let kept = (record_entry-SameStores pf content now v1).tokens in
      let put : v2.tokens ≡ (put_token pf marked w).tokens =
        kept ∙ (elim (token_save-writes pf marked w) [
          | inl (e, same) ↦ same
          | inr ((x, e), same) ↦ absurd (cc)
        ]) in
      let start = put-Cascaded pf (λ p. ⊥) marked w refl keyed closed in
      let s2 = subst (λ s. Cascaded (Or t.id (λ p. ⊥)) s w.tokens) (sym put) start in
      let done =
        cascade_revoke-Cascades pf now actor (suc (length v2.tokens.items)) (λ p. ⊥) id v2 s2.keyed
          (subst (λ x. IsClosedBut (Or x (λ p. ⊥)) v2.tokens) here s2.closed) ran in
      subst (λ s. Cascaded (λ p. ⊥) s (put_token pf marked w).tokens)
        (ap (λ x. x.1.tokens) (sym (r1 ∙ r2 ∙ r3)))
        (subst (λ s. Cascaded (λ p. ⊥) (cascade v2).1.tokens s) put done)

  found-gone :
      (id : String) (after : Store Token) (found : Option Token)
      → get id after ≡ found
      → ((t : Token) → found ≡ some t → is_active t.status ≡ true → ⊥)
      → holds_active id after ≡ false
  unfolding holds_active
  found-gone id after none e dead = rw (holds_active, e) refl
  found-gone id after (some t) e dead = elim (Bool-cases (is_active t.status)) [
    | inl live ↦ absurd (dead t refl live)
    | inr gone ↦ rw (holds_active, e) gone
  ]

  -- A revocation that returns has ended the token and everything delegated from it: in a store where
  -- each token is under its own id and no active token has a revoked parent, the token is no longer
  -- active afterwards and still no active token has a revoked parent.
  pub revoke_token-ends_lineage :
      (id : String) (reason : RevocationReason) (r : Token) (w : World)
      → IsKeyed w.tokens
      → IsClosed w.tokens
      → (revoke_token pf now actor id reason w).0 ≡ ok r
      → IsRevoked id (revoke_token pf now actor id reason w).1.tokens
  unfolding revoke_token revoke_if_found
  revoke_token-ends_lineage id reason r w keyed closed h =
      let m = token_get pf id in
      let (found, read, rest) = bind-eq-ok m (revoke_if_found pf now actor id reason) w r h in
      let (reads, same) = token_get-reads pf id w in
      let stored = read-eq (m w).0 (get id w.tokens) found reads read in
      let after = ap (λ x. x.1.tokens) rest in
      subst (λ s. IsRevoked id s) (sym after)
        (of_found found (m w).1 (ap (get id) same.tokens ∙ stored)
          (subst IsKeyed (sym same.tokens) keyed) (subst IsClosed (sym same.tokens) closed)
          (ap (λ x. x.0) (sym rest) ∙ h))
    where
      of_found :
          (found : Option Token) (v : World)
          → get id v.tokens ≡ found
          → IsKeyed v.tokens
          → IsClosed v.tokens
          → (revoke_if_found pf now actor id reason found v).0 ≡ ok r
          → IsRevoked id (revoke_if_found pf now actor id reason found v).1.tokens
      of_found none v e keyed closed h = absurd (cc)
      of_found (some t) v e keyed closed h =
          let c = revoke_found-Cascaded id reason t r v (keyed id t e) keyed closed h in
          let marked = mark_revoked t now reason in
          record {
            keyed = c.keyed;
            closed = c.closed;
            gone = found-gone id _ _ refl (λ u stored live.
                (let before = c.shrinks id u stored live in
                  let put =
                    subst (λ k. get k (put_token pf marked v).tokens ≡ some marked) (keyed id t e)
                      (get-put_token pf marked v) in
                  cc (ap (λ x. is_active x.status) (some-injective marked u (sym put ∙ before)))));
          }
