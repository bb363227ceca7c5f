-- ===== src/Redaction/Masks.antt =====
-- What a redaction of src/redaction.ts shows of each field.
use ambit.Common.{
  ◌≡◌, refl, sym, ap, ◌∙◌, inl, inr, Bool, true, false, not, ◌&&◌, ◌||◌, Option, some, List, [],
  ◌∷◌, String, Dict, if◌then◌else◌, str_eq, eq_iff, is_some, includes, lookup, lookup-insert,
  lookup-insert_self, Bool-cases, arith,
}
use ambit.Records.{RedactionRule}
use ambit.Redaction.{
  redaction_mask, inherited_names, has_field, set_field, redact_fields, apply_redaction,
}

-- The rule asks a scope for the field that is not among these.
unfoldable pub is_hidden : List String → String → Dict String → Bool
is_hidden scope f [] = false
is_hidden scope f ((field, required) ∷ sensitive) =
    (str_eq field f && not (includes scope required)) || is_hidden scope f sensitive

module _ (f : String) where
  lookup-set_field_other :
      (field text : String) (shown : Dict String)
      → str_eq field f ≡ false
      → lookup f (set_field field text shown) ≡ lookup f shown
  unfolding set_field
  lookup-set_field_other field text shown h = elim (Bool-cases (str_eq field "__proto__")) [
    | inl e ↦ rw e refl
    | inr e ↦ rw (e, lookup-insert field f text shown, h) refl
  ]

  lookup-set_field_self :
      (text : String) (shown : Dict String)
      → str_eq f "__proto__" ≡ false
      → lookup f (set_field f text shown) ≡ some text
  unfolding set_field
  lookup-set_field_self text shown h = rw h (lookup-insert_self f text shown)

  plain-proto : includes inherited_names f ≡ false → str_eq f "__proto__" ≡ false
  plain-proto h = elim (Bool-cases (str_eq f "__proto__")) [
    | inr e ↦ e
    | inl e ↦
        let same : f ≡ "__proto__" = ground (eq_iff f "__proto__", e, arith) in
        absurd (cc (sym (ap (includes inherited_names) same) ∙ h))
  ]

-- A field that no object inherits is there exactly if it is one of the own ones.
own-field :
    (f : String) (shown : Dict String)
    → includes inherited_names f ≡ false
    → has_field f shown ≡ is_some (lookup f shown)
unfolding has_field
own-field f shown plain = rw plain (or_false (is_some (lookup f shown)))
  where
    or_false : (b : Bool) → (b || false) ≡ b
    or_false true = refl
    or_false false = refl

-- What is seen of a field, by whether it is there and whether it is hidden.
abbrev seen : Bool → Bool → Option String → Option String
seen there hidden value = if there && hidden then some redaction_mask else value

seen-unhidden : (there : Bool) (value : Option String) → value ≡ seen there false value
seen-unhidden true value = refl
seen-unhidden false value = refl

seen-more :
    (there hides hidden : Bool) (value : Option String)
    → (there && hides) ≡ false
    → seen there hidden value ≡ seen there (hides || hidden) value
seen-more there true hidden value h = ground (arith, h)
seen-more there false hidden value h = refl

seen-masked :
    (there hides hidden : Bool) (value : Option String)
    → (there && hides) ≡ true
    → seen true hidden (some redaction_mask) ≡ seen there (hides || hidden) value
seen-masked true true true value h = refl
seen-masked true true false value h = refl
seen-masked true false hidden value h = absurd (cc)
seen-masked false hides hidden value h = absurd (cc)

module _ (f : String) (scope : List String) (plain : includes inherited_names f ≡ false) where
  -- A round for another field changes nothing of this one.
  round_other :
      (field required : String) (shown : Dict String)
      (after : Dict String → Dict String × List String) (hidden : Bool)
      → str_eq field f ≡ false
      → ((d : Dict String) → lookup f (after d).0 ≡ seen (is_some (lookup f d)) hidden (lookup f d))
      → lookup f
          (if has_field field shown && not (includes scope required)
            then (
              (after (set_field field redaction_mask shown)).0,
              field ∷ (after (set_field field redaction_mask shown)).1,
            )
            else after shown).0
        ≡ seen (is_some (lookup f shown)) hidden (lookup f shown)
  round_other field required shown after hidden other ih =
      elim (Bool-cases (has_field field shown && not (includes scope required))) [
        | inr e ↦ rw e (ih shown)
        | inl e ↦ rw e (
            ih (set_field field redaction_mask shown)
            ∙ ap (λ v. seen (is_some v) hidden v)
                (lookup-set_field_other f field redaction_mask shown other))
      ]

  -- A round for the field itself masks it, if it is there and its scope is missing.
  round_self :
      (required : String) (shown : Dict String) (after : Dict String → Dict String × List String)
      (hidden : Bool)
      → ((d : Dict String) → lookup f (after d).0 ≡ seen (is_some (lookup f d)) hidden (lookup f d))
      → lookup f
          (if has_field f shown && not (includes scope required)
            then (
              (after (set_field f redaction_mask shown)).0,
              f ∷ (after (set_field f redaction_mask shown)).1,
            )
            else after shown).0
        ≡ seen (is_some (lookup f shown)) (not (includes scope required) || hidden) (lookup f shown)
  round_self required shown after hidden ih =
      let there = is_some (lookup f shown) in
      let hides = not (includes scope required) in
      rw (own-field f shown plain) (elim (Bool-cases (there && hides)) [
        | inr e ↦ rw e (ih shown ∙ seen-more there hides hidden (lookup f shown) e)
        | inl e ↦ rw e (
            ih (set_field f redaction_mask shown)
            ∙ ap (λ v. seen (is_some v) hidden v)
                (lookup-set_field_self f redaction_mask shown (plain-proto f plain))
            ∙ seen-masked there hides hidden (lookup f shown) e)
      ])

  lookup-redact_fields :
      (sensitive shown : Dict String)
      → lookup f (redact_fields scope sensitive shown).0
        ≡ seen (is_some (lookup f shown)) (is_hidden scope f sensitive) (lookup f shown)
  unfolding redact_fields is_hidden
  lookup-redact_fields [] shown = seen-unhidden (is_some (lookup f shown)) (lookup f shown)
  lookup-redact_fields ((field, required) ∷ sensitive) shown =
      let ih = lookup-redact_fields sensitive in
      let hidden = is_hidden scope f sensitive in
      elim (Bool-cases (str_eq field f)) [
        | inr e ↦
            rw e (round_other field required shown (redact_fields scope sensitive) hidden e ih)
        | inl e ↦
            let same : field ≡ f = (eq_iff field f).0 e in
            rw (same, (eq_iff f f).1 refl)
              (round_self required shown (redact_fields scope sensitive) hidden ih)
      ]

-- A field that is not the name of an inherited member is masked exactly if the record has it and the
-- rule names it with a scope that the token lacks; every other such field keeps its value, and a
-- field that the record lacks is not made up.
pub apply_redaction-exact :
    (f : String) (shown : Dict String) (rule : RedactionRule) (scope : List String)
    → includes inherited_names f ≡ false
    → lookup f (apply_redaction shown rule scope).0 ≡ (
        if is_some (lookup f shown) && is_hidden scope f rule.sensitive_fields
        then some redaction_mask
        else lookup f shown)
unfolding apply_redaction
apply_redaction-exact f shown rule scope plain =
    lookup-redact_fields f scope plain rule.sensitive_fields shown
