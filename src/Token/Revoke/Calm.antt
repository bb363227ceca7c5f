-- ===== src/Token/Revoke/Calm.antt =====
-- The steps of a revocation of src/token.ts settle, and the active tokens only become fewer.
use ambit.Common.{ℕ, ◌≡◌, refl, sym, ap, ◌∙◌, subst, inl, inr, false, Option, String}
use ambit.Records.{Token, RevocationReason, parent_revoked}
use ambit.Platform.{Platform}
use ambit.Store.{get, save}
use ambit.World.{
  World, Action, Result, Error, ok, throw, circuit_open, unknown_token, pure, ◌>>=◌, record_entry,
}
use ambit.World.Frame.{bind-ok, bind-throw, record_entry-SameStores, record_entry-accepts}
use ambit.Token.Access.{token_save, put_token}
use ambit.Token.Access.Reads.{get-put_token, token_save-writes}
use ambit.Token.Enforce.{is_active}
use ambit.Token.Revoke.{mark_revoked, revocation_fields, revoke_child}
use ambit.Token.Revoke.Cascade.{revoke_child-saves}
use ambit.Token.Revoke.Active.{
  IsIndexed, is_live, IsIndexed-insert, Wanes, Wanes-refl, Wanes-trans, save-Wanes,
}

-- The call returned, the open circuit refused it, or the token is not known: it did not overflow.
abbrev pub IsExpected : Error → Type 0
IsExpected (circuit_open m) = Unit
IsExpected (unknown_token m) = Unit
IsExpected _ = ⊥

abbrev pub Settled {ℓ} : {A : Type ℓ} → Result A → Type 0
Settled (ok a) = Unit
Settled (throw e) = IsExpected e

-- A run of an action that settles, and by which the active tokens only become fewer.
pub record Calm {ℓ} {A : Type ℓ} (m : Action A) (w : World) : Type 0 where
  pub settled : Settled (m w).0
  pub indexed : IsIndexed (m w).1.tokens.items
  pub wanes : Wanes (m w).1.tokens w.tokens

pub pure-Calm {ℓ} : {A : Type ℓ} (a : A) (w : World) → IsIndexed w.tokens.items → Calm (pure a) w
pure-Calm a w h = record { settled = tt; indexed = h; wanes = Wanes-refl w.tokens }

-- What a bound action gives of its parts.
pub bind-Calm {ℓ κ} :
    {A : Type ℓ} {B : Type κ} (m : Action A) (f : A → Action B) (w : World)
    → Calm m w
    → ((a : A) → (m w).0 ≡ ok a → Calm (f a) (m w).1)
    → Calm (m >>= f) w
bind-Calm {A} {B} m f w first next = go (m w).0 refl first.settled
  where
    go : (r : Result A) → (m w).0 ≡ r → Settled r → Calm (m >>= f) w
    go (ok a) e s =
        let rest = next a e in
        let same = bind-ok m f a w e in
        record {
          settled = subst (λ x. Settled x.0) (sym same) rest.settled;
          indexed = subst (λ x. IsIndexed x.1.tokens.items) (sym same) rest.indexed;
          wanes =
              subst (λ x. Wanes x.1.tokens w.tokens) (sym same)
                (Wanes-trans (f a (m w).1).1.tokens (m w).1.tokens w.tokens rest.wanes first.wanes);
        }
    go (throw x) e s =
        let same = bind-throw m f x w e in
        record {
          settled = subst (λ y. Settled y.0) (sym same) s;
          indexed = subst (λ y. IsIndexed y.1.tokens.items) (sym same) first.indexed;
          wanes = subst (λ y. Wanes y.1.tokens w.tokens) (sym same) first.wanes;
        }

module _ (pf : Platform) (now : ℕ) (actor : Option String) where
  put-IsIndexed :
      (t : Token) (w : World) → IsIndexed w.tokens.items → IsIndexed (put_token pf t w).tokens.items
  unfolding put_token save
  put-IsIndexed t w h = IsIndexed-insert t w.tokens.items h

  put-Wanes :
      (t : Token) (w : World)
      → is_active t.status ≡ false
      → Wanes (put_token pf t w).tokens w.tokens
  unfolding put_token
  put-Wanes t w dead = save-Wanes t (pf.json_token t) w.tokens dead

  -- The save of a revoked token.
  pub save-Calm :
      (t : Token) (w : World)
      → is_active t.status ≡ false
      → IsIndexed w.tokens.items
      → Calm (token_save pf t) w
  save-Calm t w dead h = elim (token_save-writes pf t w) [
    | inl (e, same) ↦ record {
      settled = subst Settled (sym e) tt;
      indexed = subst (λ s. IsIndexed s.items) (sym same) (put-IsIndexed t w h);
      wanes = subst (λ s. Wanes s w.tokens) (sym same) (put-Wanes t w dead);
    }
    | inr ((x, e), same) ↦ record {
      settled = subst Settled (sym e) tt;
      indexed = subst (λ s. IsIndexed s.items) (sym same) h;
      wanes = subst (λ s. Wanes s w.tokens) (sym same) (Wanes-refl w.tokens);
    }
  ]

  -- The audit entry of a revocation.
  pub record-Calm :
      (id subject : String) (reason : RevocationReason) (w : World)
      → IsIndexed w.tokens.items
      → Calm (record_entry pf (revocation_fields id subject reason actor) now) w
  record-Calm id subject reason w h =
      let content = revocation_fields id subject reason actor in
      let accepted = record_entry-accepts pf content now w refl in
      let same = (record_entry-SameStores pf content now w).tokens in
      record {
        settled = subst (λ x. Settled x.0) (sym accepted) tt;
        indexed = subst (λ s. IsIndexed s.items) (sym same) h;
        wanes = subst (λ s. Wanes s w.tokens) (sym same) (Wanes-refl w.tokens);
      }

  pub child-Calm :
      (c : Token) (w : World) → IsIndexed w.tokens.items → Calm (revoke_child pf now actor c) w
  unfolding revoke_child
  child-Calm c w h =
      let m = token_save pf (mark_revoked c now parent_revoked) in
      let saved = save-Calm (mark_revoked c now parent_revoked) w refl h in
      bind-Calm m (λ _. record_entry pf (revocation_fields c.id c.subject parent_revoked actor) now)
        w saved (λ _ e. record-Calm c.id c.subject parent_revoked (m w).1 saved.indexed)

  -- A child whose save returned is no longer active.
  pub child-ended :
      (c : Token) (w : World)
      → (revoke_child pf now actor c w).0 ≡ ok tt
      → is_live (get c.id (revoke_child pf now actor c w).1.tokens) ≡ false
  unfolding is_live
  child-ended c w h =
      ap (λ s. is_live (get c.id s)) (revoke_child-saves pf now actor c w h)
      ∙ ap is_live (get-put_token pf (mark_revoked c now parent_revoked) w)
