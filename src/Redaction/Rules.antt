-- ===== src/Redaction/Rules.antt =====
-- Which rules `createRedactionRule` of src/redaction.ts accepts, and that it leaves the audit log sound.
use ambit.Common.{
  ℕ, ◌≡◌, refl, ap, ◌∙◌, ◌⊎◌, inl, inr, Bool, true, false, not, ◌&&◌, ◌||◌, some, [], ◌∷◌, String,
  Dict, str_eq, eq_iff, is_blank, all, Bool-cases, lookup-insert_self,
}
use ambit.Records.{RedactionRule, RedactionRuleInput}
use ambit.Platform.{Platform}
use ambit.Store.{get, save}
use ambit.World.{
  World, Action, Result, ok, throw, record_entry, write_entry, draw_uuid, invalid_redaction_rule,
}
use ambit.World.Sound.{
  IsSound, Extends-same, pure-IsSound, raise-IsSound, bind-IsSound, if-IsSound,
  record_entry-IsSound, draw_uuid-IsSound,
}
use ambit.Redaction.{
  no_fields, validate_fields, validate, put_rule, save_rule, rule_of, make_rule,
  create_redaction_rule,
}

-- A field and the scope that it asks for are both given.
unfoldable pub is_given : String × String → Bool
is_given (field, required) = not (is_blank field) && not (is_blank required)

-- A rule that has a name and protects something.
unfoldable pub is_protective : RedactionRuleInput → Bool
is_protective input =
    not (is_blank input.name)
    && not (no_fields input.sensitive_fields)
    && all is_given input.sensitive_fields

-- A check that passes, or throws and changes nothing.
Verdict : Bool → Action (Unit {0}) → Type 0
Verdict good m =
    ((good ≡ true) × ((w : World) → m w ≡ (ok tt, w)))
    ⊎ ((good ≡ false)
        × (message : String) × ((w : World) → m w ≡ (throw (invalid_redaction_rule message), w)))

-- The empty text is blank.
empty-blank : (s : String) → (str_eq s "" || is_blank s) ≡ is_blank s
unfolding is_blank
empty-blank s = elim (Bool-cases (str_eq s "")) [
  | inl e ↦ rw ((eq_iff s "").0 e) refl
  | inr e ↦ rw e refl
]

validate_fields-Verdict :
    (sensitive : Dict String) → Verdict (all is_given sensitive) (validate_fields sensitive)
unfolding Verdict validate_fields is_given
validate_fields-Verdict [] = inl (refl, λ w. refl)
validate_fields-Verdict ((field, required) ∷ sensitive) =
    rw (empty-blank field, empty-blank required)
      (elim (Bool-cases (is_blank field)) [
        | inl e ↦ rw e (inr (refl, _, λ w. refl))
        | inr e ↦ elim (Bool-cases (is_blank required)) [
          | inl f ↦ rw (e, f) (inr (refl, _, λ w. refl))
          | inr f ↦ rw (e, f) (validate_fields-Verdict sensitive)
        ]
      ])

validate-Verdict : (input : RedactionRuleInput) → Verdict (is_protective input) (validate input)
unfolding Verdict validate is_protective
validate-Verdict input = rw (empty-blank input.name) (elim (Bool-cases (is_blank input.name)) [
  | inl e ↦ rw e (inr (refl, _, λ w. refl))
  | inr e ↦ elim (Bool-cases (no_fields input.sensitive_fields)) [
    | inl f ↦ rw (e, f) (inr (refl, _, λ w. refl))
    | inr f ↦ rw (e, f) (validate_fields-Verdict input.sensitive_fields)
  ]
])

module _ (pf : Platform) where
  -- Past the check a rule is made: it is returned, and stored.
  pub Makes : RedactionRuleInput → String → ℕ → World → Type 0
  Makes input author now w =
      (id : String) × ((create_redaction_rule pf input author now w).0
        ≡ ok (rule_of input author now id))
      × (get id (create_redaction_rule pf input author now w).1.rules
          ≡ some (rule_of input author now id))

  after-check :
      (input : RedactionRuleInput) (author : String) (now : ℕ) (w : World) (r : Result (Unit {0}))
      → validate input w ≡ (r, w)
      → create_redaction_rule pf input author now w
        ≡ (elim r as (λ _. Result RedactionRule × World) [
          | ok _ ↦ make_rule pf input author now w
          | throw e ↦ (throw e, w)
        ])
  unfolding create_redaction_rule
  after-check input author now w r h =
      ap
        (λ (p : Result (Unit {0}) × World). elim p.0 as (λ _. Result RedactionRule × World) [
          | ok _ ↦ make_rule pf input author now p.1
          | throw e ↦ (throw e, p.1)
        ])
        h

  make_rule-stores :
      (input : RedactionRuleInput) (author : String) (now : ℕ) (w : World)
      → get (pf.random_uuid w.uuids_drawn) (make_rule pf input author now w).1.rules
        ≡ some (rule_of input author now (pf.random_uuid w.uuids_drawn))
  unfolding make_rule draw_uuid save_rule put_rule record_entry write_entry get save
  make_rule-stores input author now w =
      let id = pf.random_uuid w.uuids_drawn in
      lookup-insert_self id (rule_of input author now id) w.rules.items

  make_rule-returns :
      (input : RedactionRuleInput) (author : String) (now : ℕ) (w : World)
      → (make_rule pf input author now w).0
        ≡ ok (rule_of input author now (pf.random_uuid w.uuids_drawn))
  unfolding make_rule draw_uuid save_rule put_rule record_entry write_entry
  make_rule-returns input author now w = refl

  -- A rule that has a name and protects at least one field, each by a scope, is returned and stored
  -- as it was given; any other is refused, with a message, and nothing changes.
  pub create_redaction_rule-decides :
      (input : RedactionRuleInput) (author : String) (now : ℕ) (w : World)
      → ((is_protective input ≡ true) × Makes input author now w)
        ⊎ ((is_protective input ≡ false)
            × (message : String) × (create_redaction_rule pf input author now w
                ≡ (throw (invalid_redaction_rule message), w)))
  unfolding Makes Verdict
  create_redaction_rule-decides input author now w = elim (validate-Verdict input) [
    | inl (good, passes) ↦
        let after = after-check input author now w (ok tt) (passes w) in
        inl (
          good,
          (
            pf.random_uuid w.uuids_drawn,
            ap (λ x. x.0) after ∙ make_rule-returns input author now w,
            ap (λ x. get (pf.random_uuid w.uuids_drawn) x.1.rules) after
                ∙ make_rule-stores input author now w,
          ),
        )
    | inr (bad, message, fails) ↦ inr (
      bad,
      message,
      after-check input author now w (throw (invalid_redaction_rule message)) (fails w),
    )
  ]

  validate_fields-IsSound : (sensitive : Dict String) → IsSound pf (validate_fields sensitive)
  unfolding validate_fields
  validate_fields-IsSound [] = search (pure-IsSound)
  validate_fields-IsSound ((field, required) ∷ sensitive) =
      let ih = validate_fields-IsSound sensitive in search (ih, raise-IsSound, if-IsSound)

  save_rule-IsSound : (r : RedactionRule) → IsSound pf (save_rule pf r)
  unfolding save_rule put_rule
  save_rule-IsSound r w = Extends-same pf w (put_rule pf r w) refl

  pub create_redaction_rule-IsSound :
      (input : RedactionRuleInput) (author : String) (now : ℕ)
      → IsSound pf (create_redaction_rule pf input author now)
  unfolding create_redaction_rule make_rule validate
  create_redaction_rule-IsSound input author now =
      search
        (
          pure-IsSound, raise-IsSound, bind-IsSound, if-IsSound, record_entry-IsSound,
          draw_uuid-IsSound, validate_fields-IsSound, save_rule-IsSound,
        )
        depth 9
