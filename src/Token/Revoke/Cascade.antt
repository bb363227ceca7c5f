-- ===== src/Token/Revoke/Cascade.antt =====
-- `cascadeRevoke` of src/token.ts: each call makes good the exception of its own parent.
use ambit.Common.{
  ℕ, zero, suc, ◌≡◌, refl, sym, ap, ◌∙◌, subst, inl, inr, true, Option, some, some-injective, List,
  [], ◌∷◌, String, Bool-cases,
}
use ambit.Records.{Token, parent_revoked}
use ambit.Platform.{Platform}
use ambit.Store.{get}
use ambit.World.{World, Action, ok, ◌>>◌, record_entry}
use ambit.World.Frame.{bind-eq-ok, record_entry-SameStores}
use ambit.Token.Access.{token_save, put_token, children_of}
use ambit.Token.Access.Reads.{get-put_token, token_save-writes}
use ambit.Token.Enforce.{is_active}
use ambit.Token.Revoke.{mark_revoked, revocation_fields, revoke_child, revoke_each, cascade_revoke}
use ambit.Token.Revoke.Closure.{
  IsKeyed, IsClosedBut, Cascaded, Or, IsIn, child-IsIn, put-Cascaded, Cascaded-trans,
}

module _ (pf : Platform) (now : ℕ) (actor : Option String) where
  -- A child that was saved and recorded is stored as revoked.
  pub revoke_child-saves :
      (child : Token) (w : World)
      → (revoke_child pf now actor child w).0 ≡ ok tt
      → (revoke_child pf now actor child w).1.tokens
        ≡ (put_token pf (mark_revoked child now parent_revoked) w).tokens
  unfolding revoke_child
  revoke_child-saves child w h =
      let m = token_save pf (mark_revoked child now parent_revoked) in
      let content = revocation_fields child.id child.subject parent_revoked actor in
      let (u, saved, rest) = bind-eq-ok m (λ _. record_entry pf content now) w tt h in
      let kept = record_entry-SameStores pf content now (m w).1 in
      elim (token_save-writes pf (mark_revoked child now parent_revoked) w) [
        | inl (e, same) ↦ ap (λ x. x.1.tokens) rest ∙ kept.tokens ∙ same
        | inr ((x, e), same) ↦ absurd (cc)
      ]

  -- A cascade below `p` makes good its exception.
  abbrev pub Cascades : (String → Action (Unit {0})) → Type 1
  Cascades recur =
      (except : String → Type 0) (p : String) (w : World)
      → IsKeyed w.tokens
      → IsClosedBut (Or p except) w.tokens
      → (recur p w).0 ≡ ok tt
      → Cascaded except (recur p w).1.tokens w.tokens

  -- What the rest of the loop does, from a world whose active children of `p` it still has to come.
  abbrev Finishes : (String → Type 0) → String → List Token → Action (Unit {0}) → Type 0
  Finishes except p children rest =
      (w : World)
      → IsKeyed w.tokens
      → IsClosedBut (Or p except) w.tokens
      → ((k : String) (t : Token)
          → get k w.tokens ≡ some t
          → is_active t.status ≡ true
          → t.parent_token_id ≡ some p
          → IsIn t children)
      → (rest w).0 ≡ ok tt
      → Cascaded except (rest w).1.tokens w.tokens

  -- A child that is revoked is no longer an active one.
  revoked-covered :
      (c : Token) (children : List Token) (k : String) (t : Token) (v w : World)
      → IsKeyed w.tokens
      → v.tokens ≡ (put_token pf (mark_revoked c now parent_revoked) w).tokens
      → get k v.tokens ≡ some t
      → get k w.tokens ≡ some t
      → is_active t.status ≡ true
      → IsIn t (c ∷ children)
      → IsIn t children
  unfolding IsIn
  revoked-covered c children k t v w keyed saved e old live (inr further) = further
  revoked-covered c children k t v w keyed saved e old live (inl same) =
      let at : c.id ≡ k = ap (λ x. x.id) same ∙ keyed k t old in
      let marked = get-put_token pf (mark_revoked c now parent_revoked) w in
      let stored : get k v.tokens ≡ some (mark_revoked c now parent_revoked) =
        subst (λ x. get x v.tokens ≡ some (mark_revoked c now parent_revoked)) at
          (ap (get c.id) saved ∙ marked) in
      let is : mark_revoked c now parent_revoked ≡ t = some-injective _ t (sym stored ∙ e) in
      absurd (cc (ap (λ x. is_active x.status) is))

  revoke_one-Finishes :
      (recur rest : String → Action (Unit {0})) (except : String → Type 0) (p : String) (c : Token)
      (children : List Token)
      → Cascades recur
      → Finishes except p children (rest p)
      → Finishes except p (c ∷ children) (revoke_child pf now actor c >> (recur c.id >> rest p))
  revoke_one-Finishes recur rest except p c children cascades finishes w keyed closed covered h =
      let m1 = revoke_child pf now actor c in
      let (u1, saved, r1) = bind-eq-ok m1 (λ _. recur c.id >> rest p) w tt h in
      let v1 = (m1 w).1 in
      let h1 = ap (λ x. x.0) (sym r1) ∙ h in
      let put = revoke_child-saves c w saved in
      let marked = mark_revoked c now parent_revoked in
      let c1 : Cascaded (Or c.id (Or p except)) v1.tokens w.tokens =
        subst (λ s. Cascaded (Or c.id (Or p except)) s w.tokens) (sym put)
          (put-Cascaded pf (Or p except) marked w refl keyed closed) in
      let (u2, ran, r2) = bind-eq-ok (recur c.id) (λ _. rest p) v1 tt h1 in
      let v2 = (recur c.id v1).1 in
      let c2 = cascades (Or p except) c.id v1 c1.keyed c1.closed ran in
      let c12 =
        Cascaded-trans pf (Or c.id (Or p except)) (Or p except) v2.tokens v1.tokens w.tokens c2
          c1 in
      let c3 =
        finishes v2 c2.keyed c2.closed
          (λ k t e live parent.
            (let at_v1 = c2.shrinks k t e live in
              let old = c1.shrinks k t at_v1 live in
              revoked-covered c children k t v1 w keyed put at_v1 old live
                (covered k t old live parent)))
          (ap (λ x. x.0) (sym r2) ∙ h1) in
      subst (λ s. Cascaded except s w.tokens) (ap (λ x. x.1.tokens) (sym (r1 ∙ r2)))
        (Cascaded-trans pf (Or p except) except (rest p v2).1.tokens v2.tokens w.tokens c3 c12)

  -- The loop: the active children of `p` are among those still to come.
  revoke_each-Finishes :
      (recur : String → Action (Unit {0})) (except : String → Type 0) (p : String)
      (children : List Token)
      → Cascades recur
      → Finishes except p children (revoke_each pf now actor recur children)
  unfolding revoke_each IsIn
  revoke_each-Finishes recur except p [] cascades w keyed closed covered h = record {
    keyed = keyed;
    shrinks = λ k t e live. e;
    closed = λ k r t q e live parent f gone. elim (closed k r t q e live parent f gone) [
      | inl same ↦ absurd (covered k t e live (parent ∙ ap some same))
      | inr other ↦ other
    ];
  }
  revoke_each-Finishes recur except p (c ∷ children) cascades w keyed closed covered h =
      let rest : String → Action (Unit {0}) = λ _. revoke_each pf now actor recur children in
      let finishes = revoke_each-Finishes recur except p children cascades in
      elim (Bool-cases (is_active c.status)) [
        | inr dead ↦ rw dead (
            finishes w keyed closed
              (λ k t e live parent. elim (covered k t e live parent) [
                | inl same ↦ absurd (cc (ap (λ x. is_active x.status) same))
                | inr further ↦ further
              ])
              (rw dead at h))
        | inl live ↦ rw live (
            revoke_one-Finishes recur rest except p c children cascades finishes w keyed closed
              covered (rw live at h))
      ]

  pub cascade_revoke-Cascades : (depth : ℕ) → Cascades (cascade_revoke pf now actor depth)
  unfolding cascade_revoke
  cascade_revoke-Cascades zero except p w keyed closed h = absurd (cc)
  cascade_revoke-Cascades (suc depth) except p w keyed closed h =
      revoke_each-Finishes (cascade_revoke pf now actor depth) except p (children_of p w)
        (cascade_revoke-Cascades depth) w keyed closed
        (λ k t e live parent. child-IsIn p k t w e parent) h
