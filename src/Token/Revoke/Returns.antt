-- ===== src/Token/Revoke/Returns.antt =====
-- The cascade of src/token.ts ends: each nested call is about a token that was active and is so no
-- more, so that the calls are nested no deeper than there are tokens.
use ambit.Common.{
  ℕ, zero, suc, ◌<◌, ◌≡◌, refl, sym, ap, ◌∙◌, subst, inl, inr, true, Option, none, some, List, [],
  ◌∷◌, String, length, values, is_some_eq, Bool-cases, arith,
}
use ambit.Records.{Token, RevocationReason}
use ambit.Platform.{Platform}
use ambit.Store.{Store, get}
use ambit.World.{World, Action, ok, pure, ◌>>◌, record_entry}
use ambit.Token.Access.{token_get, token_save, children_of}
use ambit.Token.Access.Reads.{token_get-reads}
use ambit.Token.Enforce.{is_active}
use ambit.Token.Revoke.{
  mark_revoked, revocation_fields, revoke_child, revoke_each, cascade_revoke, revoke_found,
  revoke_if_found, revoke_token,
}
use ambit.Token.Revoke.Closure.{IsIn}
use ambit.Token.Revoke.Active.{
  IsIndexed, is_live, count_active, lookup-listed, count_active-length, IsIn-filter, Wanes,
  Wanes-refl, Wanes-trans,
}
use ambit.Token.Revoke.Calm.{
  Settled, Calm, pure-Calm, bind-Calm, save-Calm, record-Calm, child-Calm, child-ended,
}

module _ (pf : Platform) (now : ℕ) (actor : Option String) where
  -- An active child that is listed is what the store holds under its id.
  children-live :
      (p : String) (w : World)
      → IsIndexed w.tokens.items
      → (c : Token) → IsIn c (children_of p w)
      → is_active c.status ≡ true
      → is_live (get c.id w.tokens) ≡ true
  unfolding children_of get is_live
  children-live p w h c listed live =
      let member =
        IsIn-filter (λ t. is_some_eq t.parent_token_id p) c (values w.tokens.items) listed in
      ap is_live (lookup-listed c w.tokens.items h member) ∙ live

  -- A recursive call settles while fewer tokens than its fuel are active.
  Settles : ℕ → (String → Action (Unit {0})) → Type 0
  Settles fuel recur =
      (p : String) (w : World)
      → IsIndexed w.tokens.items
      → count_active w.tokens.items < fuel
      → Calm (recur p) w

  -- The loop, over children that were listed in the store `start` that the call began with.
  each-Calm :
      (fuel : ℕ) (recur : String → Action (Unit {0})) (start : Store Token) (children : List Token)
      (w : World)
      → Settles fuel recur
      → count_active start.items < suc fuel
      → ((c : Token)
          → IsIn c children
          → is_active c.status ≡ true
          → is_live (get c.id start) ≡ true)
      → Wanes w.tokens start
      → IsIndexed w.tokens.items
      → Calm (revoke_each pf now actor recur children) w
  unfolding revoke_each IsIn Settles
  each-Calm fuel recur start [] w settles enough listed less h = pure-Calm tt w h
  each-Calm fuel recur start (c ∷ cs) w settles enough listed less h =
      elim (Bool-cases (is_active c.status)) [
        | inr dead ↦
            rw dead
              (each-Calm fuel recur start cs w settles enough (λ x i. listed x (inr i)) less h)
        | inl live ↦
            let m = revoke_child pf now actor c in
            let rest = revoke_each pf now actor recur cs in
            let v = (m w).1 in
            let first = child-Calm pf now actor c w h in
            let less_v = Wanes-trans v.tokens w.tokens start first.wanes less in
            let next : (u : Unit {0}) → (m w).0 ≡ ok u → Calm (recur c.id >> rest) v = λ u e.
              (let ended =
                  less_v.fewer c.id (listed c (inl refl) live) (child-ended pf now actor c w e) in
                let second = settles c.id v first.indexed (omega (arith, ended, enough)) in
                bind-Calm (recur c.id) (λ _. rest) v second
                  (λ x d.
                    each-Calm fuel recur start cs (recur c.id v).1 settles enough
                      (λ y i. listed y (inr i))
                      (Wanes-trans (recur c.id v).1.tokens v.tokens start second.wanes less_v)
                      second.indexed)) in
            rw live (bind-Calm m (λ _. recur c.id >> rest) w first next)
      ]

  cascade-Settles : (fuel : ℕ) → Settles fuel (cascade_revoke pf now actor fuel)
  unfolding Settles cascade_revoke
  cascade-Settles zero p w h few = absurd (omega (arith, few))
  cascade-Settles (suc fuel) p w h few =
      let r =
        each-Calm fuel (cascade_revoke pf now actor fuel) w.tokens (children_of p w) w
          (cascade-Settles fuel) few (children-live p w h) (Wanes-refl w.tokens) h in
      record { settled = r.settled; indexed = r.indexed; wanes = r.wanes }

  get-Calm : (id : String) (w : World) → IsIndexed w.tokens.items → Calm (token_get pf id) w
  get-Calm id w h =
      let (reads, same) = token_get-reads pf id w in
      record {
        settled = elim reads [
          | inl e ↦ subst Settled (sym e) tt
          | inr (m, e) ↦ subst Settled (sym e) tt
        ];
        indexed = subst (λ s. IsIndexed s.items) (sym same.tokens) h;
        wanes = subst (λ s. Wanes s w.tokens) (sym same.tokens) (Wanes-refl w.tokens);
      }

  found-Calm :
      (id : String) (reason : RevocationReason) (t : Token) (w : World)
      → IsIndexed w.tokens.items
      → Calm (revoke_found pf now actor id reason t) w
  unfolding revoke_found Settles
  found-Calm id reason t w h =
      let marked = mark_revoked t now reason in
      let m1 = token_save pf marked in
      let m2 = record_entry pf (revocation_fields id t.subject reason actor) now in
      let cascade : Action (Unit {0}) =
        λ v. cascade_revoke pf now actor (suc (length v.tokens.items)) id v in
      let saved = save-Calm pf now actor marked w refl h in
      bind-Calm m1 (λ _. m2 >> (cascade >> pure marked)) w saved
        (λ u e.
          (let v = (m1 w).1 in
            let recorded = record-Calm pf now actor id t.subject reason v saved.indexed in
            bind-Calm m2 (λ _. cascade >> pure marked) v recorded
              (λ x d.
                (let y = (m2 v).1 in
                  let below =
                    cascade-Settles (suc (length y.tokens.items)) id y recorded.indexed
                      (omega (arith, count_active-length y.tokens.items)) in
                  let ran : Calm cascade y = record {
                    settled = below.settled;
                    indexed = below.indexed;
                    wanes = below.wanes;
                  } in
                  bind-Calm cascade (λ _. pure marked) y ran
                    (λ z c. pure-Calm marked (cascade y).1 ran.indexed)))))

  if_found-Calm :
      (id : String) (reason : RevocationReason) (found : Option Token) (w : World)
      → IsIndexed w.tokens.items
      → Calm (revoke_if_found pf now actor id reason found) w
  unfolding revoke_if_found
  if_found-Calm id reason none w h = record {
    settled = tt;
    indexed = h;
    wanes = Wanes-refl w.tokens;
  }
  if_found-Calm id reason (some t) w h = found-Calm id reason t w h

  -- A revocation always ends, also where parent links form a cycle: on a store with each token under
  -- its own id, its recursion has fuel enough, so that it returns, is refused by the open circuit, or
  -- reports an unknown token. No token becomes active, and the store keeps its shape.
  pub revoke_token-Calm :
      (id : String) (reason : RevocationReason) (w : World)
      → IsIndexed w.tokens.items
      → Calm (revoke_token pf now actor id reason) w
  unfolding revoke_token
  revoke_token-Calm id reason w h =
      let read = get-Calm id w h in
      bind-Calm (token_get pf id) (revoke_if_found pf now actor id reason) w read
        (λ found e. if_found-Calm id reason found (token_get pf id w).1 read.indexed)
