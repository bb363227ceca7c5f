-- ===== src/Token/Revoke/Active.antt =====
-- How many tokens of a store of src/tokenStore.ts are active, and what the save of a revoked one does
-- to their number.
use ambit.Common.{
  ℕ, suc, ◌<◌, ◌≤◌, ◌≡◌, ◌≢◌, refl, sym, ap, ◌∙◌, ◌⊎◌, inl, inr, Bool, true, false, Option, none,
  some, List, [], ◌∷◌, String, Dict, str_eq, eq_iff, lookup, insert, lookup-insert_ne,
  lookup-insert_self, values, filter, length, if◌then◌else◌, Bool-cases, arith,
}
use ambit.Records.{Token}
use ambit.Store.{Store, get, save}
use ambit.Token.Enforce.{is_active}
use ambit.Token.Revoke.Closure.{IsIn}

-- The map has each token under its own id, and no id twice.
unfoldable pub IsIndexed : Dict Token → Type 0
IsIndexed [] = Unit
IsIndexed ((k, t) ∷ items) = (t.id ≡ k) × (lookup k items ≡ none) × IsIndexed items

unfoldable pub is_live : Option Token → Bool
is_live none = false
is_live (some t) = is_active t.status

unfoldable pub count_active : Dict Token → ℕ
count_active [] = 0
count_active ((k, t) ∷ items) =
    let rest = count_active items in if is_active t.status then suc rest else rest

pub IsIndexed-insert :
    (t : Token) (items : Dict Token) → IsIndexed items → IsIndexed (insert t.id t items)
unfolding IsIndexed insert lookup
IsIndexed-insert t [] h = (refl, refl, tt)
IsIndexed-insert t ((k, u) ∷ items) (own, once, h) = elim (Bool-cases (str_eq k t.id)) [
  | inl e ↦ rw e (sym ((eq_iff k t.id).0 e), once, h)
  | inr e ↦
      let apart : t.id ≢ k = λ same. absurd (cc ((eq_iff k t.id).1 (sym same))) in
      rw e (own, lookup-insert_ne t.id k t items apart ∙ once, IsIndexed-insert t items h)
]

-- A token that is listed is the one under its id.
pub lookup-listed :
    (t : Token) (items : Dict Token)
    → IsIndexed items
    → IsIn t (values items)
    → lookup t.id items ≡ some t
unfolding IsIndexed IsIn lookup
lookup-listed t [] h listed = absurd listed
lookup-listed t ((k, u) ∷ items) (own, once, h) (inl same) =
    let at : k ≡ t.id = sym own ∙ ap (λ x. x.id) same in rw ((eq_iff k t.id).1 at) (ap some same)
lookup-listed t ((k, u) ∷ items) (own, once, h) (inr further) =
    let there = lookup-listed t items h further in
    elim (Bool-cases (str_eq k t.id)) [
      | inl e ↦
          let at = (eq_iff k t.id).0 e in
          absurd (cc (sym once ∙ ap (λ x. lookup x items) at ∙ there))
      | inr e ↦ rw e there
    ]

-- The save of a token that is not active takes one from their number if its id held an active one,
-- and adds none.
pub count_active-insert :
    (t : Token) (items : Dict Token)
    → is_active t.status ≡ false
    → (count_active (insert t.id t items) ≤ count_active items)
      × (is_live (lookup t.id items) ≡ true
          → count_active (insert t.id t items) < count_active items)
unfolding count_active insert lookup is_live
count_active-insert t [] dead = (rw dead (omega arith), λ e. absurd (cc))
count_active-insert t ((k, u) ∷ items) dead =
    let (same, fewer) = count_active-insert t items dead in
    elim (Bool-cases (str_eq k t.id)) [
      | inl e ↦ rw (e, dead) (at (is_active u.status))
      | inr e ↦ rw e (past (is_active u.status) same fewer)
    ]
  where
    at :
        (b : Bool)
        → (count_active items ≤ (if b then suc (count_active items) else count_active items))
          × (b ≡ true
              → count_active items < (if b then suc (count_active items) else count_active items))
    at true = (omega arith, λ e. omega arith)
    at false = (omega arith, λ e. absurd (cc))

    past :
        (b : Bool)
        → count_active (insert t.id t items) ≤ count_active items
        → (is_live (lookup t.id items) ≡ true
            → count_active (insert t.id t items) < count_active items)
        → ((if b
              then suc (count_active (insert t.id t items))
              else count_active (insert t.id t items))
            ≤ (if b then suc (count_active items) else count_active items))
          × (is_live (lookup t.id items) ≡ true
              → (if b
                  then suc (count_active (insert t.id t items))
                  else count_active (insert t.id t items))
                < (if b then suc (count_active items) else count_active items))
    past true same fewer = (omega (arith, same), λ e. omega (arith, fewer e))
    past false same fewer = (same, fewer)

pub count_active-length : (items : Dict Token) → count_active items ≤ length items
unfolding count_active
count_active-length [] = omega arith
count_active-length ((k, t) ∷ items) = elim (Bool-cases (is_active t.status)) [
  | inl e ↦ rw e (omega (arith, count_active-length items))
  | inr e ↦ rw e (omega (arith, count_active-length items))
]

pub IsIn-filter :
    (f : Token → Bool) (t : Token) (xs : List Token) → IsIn t (filter f xs) → IsIn t xs
unfolding IsIn
IsIn-filter f t [] h = h
IsIn-filter f t (x ∷ xs) h = elim (Bool-cases (f x)) [
  | inr e ↦ inr (IsIn-filter f t xs (rw e at h))
  | inl e ↦
      let kept : (x ≡ t) ⊎ IsIn t (filter f xs) = rw e at h in
      elim kept [ inl same ↦ inl same | inr further ↦ inr (IsIn-filter f t xs further) ]
]

-- From `before` to `after` no token became active, and the number of the active ones fell with each
-- id that no longer holds an active one.
pub record Wanes (after before : Store Token) : Type 0 where
  pub at_most : count_active after.items ≤ count_active before.items
  pub fewer :
      (id : String)
      → is_live (get id before) ≡ true
      → is_live (get id after) ≡ false
      → count_active after.items < count_active before.items
  pub lasting : (id : String) → is_live (get id after) ≡ true → is_live (get id before) ≡ true

pub Wanes-refl : (s : Store Token) → Wanes s s
Wanes-refl s = record {
  at_most = omega arith;
  fewer = λ id live gone. absurd (cc);
  lasting = λ id live. live;
}

pub Wanes-trans : (a b c : Store Token) → Wanes a b → Wanes b c → Wanes a c
Wanes-trans a b c late early = record {
  at_most = omega (arith, late.at_most, early.at_most);
  fewer = λ id live gone. elim (Bool-cases (is_live (get id b))) [
    | inl still ↦ omega (arith, late.fewer id still gone, early.at_most)
    | inr ended ↦ omega (arith, late.at_most, early.fewer id live ended)
  ];
  lasting = λ id live. early.lasting id (late.lasting id live);
}

-- The save of a token that is not active.
pub save-Wanes :
    (t : Token) (line : String) (s : Store Token)
    → is_active t.status ≡ false
    → Wanes (save t.id t line s) s
unfolding save get is_live
save-Wanes t line s dead =
    let (same, fewer) = count_active-insert t s.items dead in
    record {
      at_most = same;
      fewer = λ id live gone. elim (Bool-cases (str_eq t.id id)) [
        | inl e ↦
            let here = (eq_iff t.id id).0 e in
            fewer (ap (λ x. is_live (lookup x s.items)) here ∙ live)
        | inr e ↦
            let apart : t.id ≢ id = λ x. absurd (cc ((eq_iff t.id id).1 x)) in
            absurd (cc (ap is_live (lookup-insert_ne t.id id t s.items apart), live, gone))
      ];
      lasting = λ id live. elim (Bool-cases (str_eq t.id id)) [
        | inl e ↦
            let here = (eq_iff t.id id).0 e in
            let there = ap is_live (lookup-insert_self t.id t s.items) in
            absurd
              (cc (ap (λ x. is_live (lookup x (insert t.id t s.items))) here, there, dead, live))
        | inr e ↦
            let apart : t.id ≢ id = λ x. absurd (cc ((eq_iff t.id id).1 x)) in
            sym (ap is_live (lookup-insert_ne t.id id t s.items apart)) ∙ live
      ];
    }
