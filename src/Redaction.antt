-- ===== src/Redaction.antt =====
-- src/redaction.ts: which fields of a customer's record a token may see. A record is an object, held as
-- its own properties in order.
pub mod Masks
pub mod Rules
use ambit.Common.{
  ℕ, Bool, true, false, not, ◌&&◌, ◌||◌, Option, none, some, List, [], ◌∷◌, String, Dict,
  if◌then◌else◌, str_eq, is_blank, is_some, includes, template, lookup, insert, values,
}
use ambit.Records.{RedactionRule, RedactionRuleInput, fields, redaction_rule_created}
use ambit.Platform.{Platform}
use ambit.Store.{get, save}
use ambit.World.{
  World, Action, ok, pure, raise, ◌>>=◌, ◌>>◌, record_entry, draw_uuid, invalid_redaction_rule,
}

abbrev pub redaction_mask : String
redaction_mask = "[REDACTED]"

-- The names that every object inherits from `Object.prototype`.
abbrev pub inherited_names : List String
inherited_names =
    "constructor" ∷ "hasOwnProperty" ∷ "isPrototypeOf" ∷ "propertyIsEnumerable" ∷ "toLocaleString"
    ∷ "toString" ∷ "valueOf" ∷ "__defineGetter__" ∷ "__defineSetter__" ∷ "__lookupGetter__"
    ∷ "__lookupSetter__" ∷ "__proto__" ∷ []

-- `field in data`
unfoldable pub has_field : String → Dict String → Bool
has_field field shown = is_some (lookup field shown) || includes inherited_names field

-- `data[field] = text`: a text is no prototype, so that setting `__proto__` to one has no effect.
unfoldable pub set_field : String → String → Dict String → Dict String
set_field field text shown = if str_eq field "__proto__" then shown else insert field text shown

-- The loop of `applyRedaction`: the data and the redacted fields, in order.
unfoldable pub redact_fields : List String → Dict String → Dict String → Dict String × List String
unfolding has_field set_field
redact_fields scope [] shown = (shown, [])
redact_fields scope ((field, required) ∷ sensitive) shown =
    let kept = redact_fields scope sensitive shown in
    let (masked, names) = redact_fields scope sensitive (set_field field redaction_mask shown) in
    if has_field field shown && not (includes scope required) then (masked, field ∷ names) else kept

-- `applyRedaction`
unfoldable pub apply_redaction :
    Dict String → RedactionRule → List String → Dict String × List String
unfolding redact_fields
apply_redaction shown rule scope = redact_fields scope rule.sensitive_fields shown

-- The loop of `validate`.
unfoldable pub validate_fields : Dict String → Action (Unit {0})
unfolding is_blank template
validate_fields [] = pure tt
validate_fields ((field, required) ∷ sensitive) =
    if str_eq field "" || is_blank field
    then raise (invalid_redaction_rule "a sensitive field name cannot be empty")
    else (if str_eq required "" || is_blank required
        then raise (
            invalid_redaction_rule (
              template (
                "field \"" ∷ field
                ∷ "\" has no requiredScope — a field with an empty required scope can never be un-redacted, which is likely a misconfiguration, not an intentional permanent redaction"
                ∷ [])))
        else validate_fields sensitive)

abbrev pub no_fields : Dict String → Bool
no_fields [] = true
no_fields (x ∷ xs) = false

-- `validate`
unfoldable pub validate : RedactionRuleInput → Action (Unit {0})
unfolding validate_fields
validate input =
    if str_eq input.name "" || is_blank input.name
    then raise (invalid_redaction_rule "name is required")
    else (if no_fields input.sensitive_fields
        then raise (
            invalid_redaction_rule
              "sensitiveFields must protect at least one field — an empty rule protects nothing")
        else validate_fields input.sensitive_fields)

-- `RedactionRuleStore.list`
unfoldable pub rule_list : World → List RedactionRule
rule_list w = values w.rules.items

-- The rule that `createRedactionRule` makes.
abbrev pub rule_of : RedactionRuleInput → String → ℕ → String → RedactionRule
rule_of input author now id = record {
  id = id;
  name = input.name;
  sensitive_fields = input.sensitive_fields;
  authored_by = author;
  created_at = now;
}

module _ (pf : Platform) where
  unfoldable pub put_rule : RedactionRule → World → World
  put_rule r w = record w { rules = save r.id r (pf.json_rule r) w.rules }

  -- `RedactionRuleStore.save`
  unfoldable pub save_rule : RedactionRule → Action (Unit {0})
  unfolding put_rule
  save_rule r w = (ok tt, put_rule r w)

  -- `createRedactionRule`, past the check.
  unfoldable pub make_rule : RedactionRuleInput → String → ℕ → Action RedactionRule
  unfolding draw_uuid save_rule record_entry
  make_rule input author now = do
    id ← draw_uuid pf
    save_rule (rule_of input author now id)
    record_entry pf
        (record (fields author "create_redaction_rule" redaction_rule_created) {
          reason_code = some id;
        })
        now
    pure (rule_of input author now id)

  -- `createRedactionRule`
  unfoldable pub create_redaction_rule : RedactionRuleInput → String → ℕ → Action RedactionRule
  unfolding validate make_rule
  create_redaction_rule input author now = validate input >> make_rule input author now
