-- ===== src/Token/Revoke/Closure.antt =====
-- When no active token stands under a revoked one, in a token store of src/tokenStore.ts, and what the
-- save of a revoked token does to that.
use ambit.Common.{
  ◌≡◌, ◌≢◌, refl, sym, ap, ◌∙◌, ◌⊎◌, inl, inr, Bool, true, false, some, some-injective, List, [],
  ◌∷◌, String, str_eq, eq_iff, filter, values, is_some_eq, lookup, lookup-insert, Dict, Bool-cases,
}
use ambit.Records.{Token}
use ambit.Platform.{Platform}
use ambit.Store.{Store, get, save}
use ambit.World.{World}
use ambit.Token.Access.{put_token, children_of}
use ambit.Token.Enforce.{is_active}

-- Each token is stored under its own id.
abbrev pub IsKeyed : Store Token → Type 0
IsKeyed s = (k : String) (t : Token) → get k s ≡ some t → t.id ≡ k

-- Under the revoked tokens that are not excepted there is no active one.
abbrev pub IsClosedBut : (String → Type 0) → Store Token → Type 0
IsClosedBut except s =
    (k p : String) (t q : Token)
    → get k s ≡ some t
    → is_active t.status ≡ true
    → t.parent_token_id ≡ some p
    → get p s ≡ some q
    → is_active q.status ≡ false
    → except p

-- No active token has a revoked parent.
abbrev pub IsClosed : Store Token → Type 0
IsClosed = IsClosedBut (λ p. ⊥)

-- What is active after was there before, the same.
abbrev pub Shrinks : Store Token → Store Token → Type 0
Shrinks after before =
    (k : String) (t : Token)
    → get k after ≡ some t
    → is_active t.status ≡ true
    → get k before ≡ some t

-- From `before`, closed but for `p` and `except`, to `after`, closed but for `except`.
pub record Cascaded (except : String → Type 0) (after before : Store Token) : Type 0 where
  pub keyed : IsKeyed after
  pub shrinks : Shrinks after before
  pub closed : IsClosedBut except after

-- One more exception.
abbrev pub Or : String → (String → Type 0) → String → Type 0
Or id except p = (p ≡ id) ⊎ except p

unfoldable pub IsIn : Token → List Token → Type 0
IsIn t [] = ⊥
IsIn t (x ∷ xs) = (x ≡ t) ⊎ IsIn t xs

lookup-IsIn :
    (k : String) (t : Token) (items : Dict Token) → lookup k items ≡ some t → IsIn t (values items)
unfolding lookup IsIn
lookup-IsIn k t [] e = absurd (cc)
lookup-IsIn k t ((j, u) ∷ items) e = elim (Bool-cases (str_eq j k)) [
  | inl here ↦ inl (some-injective u t (rw here at e))
  | inr there ↦ inr (lookup-IsIn k t items (rw there at e))
]

filter-IsIn :
    (f : Token → Bool) (t : Token) (xs : List Token) → IsIn t xs → f t ≡ true → IsIn t (filter f xs)
unfolding IsIn
filter-IsIn f t [] e h = absurd e
filter-IsIn f t (x ∷ xs) (inl e) h = rw (ap f e ∙ h) (inl e)
filter-IsIn f t (x ∷ xs) (inr e) h = elim (Bool-cases (f x)) [
  | inl kept ↦ rw kept (inr (filter-IsIn f t xs e h))
  | inr dropped ↦ rw dropped (filter-IsIn f t xs e h)
]

pub child-IsIn :
    (p k : String) (t : Token) (w : World)
    → get k w.tokens ≡ some t
    → t.parent_token_id ≡ some p
    → IsIn t (children_of p w)
unfolding children_of get
child-IsIn p k t w e h =
    filter-IsIn (λ u. is_some_eq u.parent_token_id p) t (values w.tokens.items)
      (lookup-IsIn k t w.tokens.items e) (rw h ((eq_iff p p).1 refl))

module _ (pf : Platform) where
  get-put_cases :
      (t u : Token) (k : String) (w : World)
      → get k (put_token pf t w).tokens ≡ some u
      → ((t.id ≡ k) × (t ≡ u)) ⊎ ((t.id ≢ k) × (get k w.tokens ≡ some u))
  unfolding get put_token save
  get-put_cases t u k w h = elim (Bool-cases (str_eq t.id k)) [
    | inl here ↦ inl (
      (eq_iff t.id k).0 here,
      some-injective t u (rw here at (sym (lookup-insert t.id k t w.tokens.items) ∙ h)),
    )
    | inr there ↦ inr (
      λ e. absurd (cc ((eq_iff t.id k).1 e)),
      (rw there at (sym (lookup-insert t.id k t w.tokens.items) ∙ h)),
    )
  ]

  -- The save of a token that is not active.
  pub put-Cascaded :
      (except : String → Type 0) (t : Token) (w : World)
      → is_active t.status ≡ false
      → IsKeyed w.tokens
      → IsClosedBut except w.tokens
      → Cascaded (Or t.id except) (put_token pf t w).tokens w.tokens
  put-Cascaded except t w dead keyed closed = record {
    keyed = λ k u e. elim (get-put_cases t u k w e) [
      | inl (at, same) ↦ cc
      | inr (ne, old) ↦ keyed k u old
    ];
    shrinks = λ k u e live. elim (get-put_cases t u k w e) [
      | inl (at, same) ↦ absurd (cc (ap (λ x. is_active x.status) same))
      | inr (ne, old) ↦ old
    ];
    closed = λ k p u q e live parent f gone. elim (get-put_cases t u k w e) [
      | inl (at, same) ↦ absurd (cc (ap (λ x. is_active x.status) same))
      | inr (ne, old) ↦ elim (get-put_cases t q p w f) [
        | inl (here, same) ↦ inl (sym here)
        | inr (ne', older) ↦ inr (closed k p u q old live parent older gone)
      ]
    ];
  }

  pub Cascaded-trans :
      (first second : String → Type 0) (after middle before : Store Token)
      → Cascaded second after middle
      → Cascaded first middle before
      → Cascaded second after before
  Cascaded-trans first second after middle before late early = record {
    keyed = late.keyed;
    shrinks = λ k t e live. early.shrinks k t (late.shrinks k t e live) live;
    closed = late.closed;
  }
