-- ===== src/Customers.antt =====
-- src/customerData.ts and src/customerDataAccess.ts: the customers, and the access to their data
-- through the Enforcement Gateway and a redaction rule. The redaction rule is configured by its id.
pub mod Access
use ambit.Common.{ℕ, Option, none, some, List, [], ◌∷◌, String, Dict, lookup, template}
use ambit.Records.{Token, RedactionRule, AuditFields, fields, data_accessed, denied}
use ambit.Platform.{Platform}
use ambit.Store.{get, set_all}
use ambit.World.{World, Action, pure, gets, ◌>>=◌, ◌>>◌, record_entry}
use ambit.Token.Access.{token_get}
use ambit.Token.Enforce.{DenyCode, EnforcementDecision, allow, deny, enforce_token}
use ambit.Redaction.{apply_redaction}

pub record CustomerRecord : Type 0 where
  pub id : String
  pub name : String
  pub email : String
  pub phone : String
  pub ssn : String
  pub address : String

-- The record's own properties, in order.
abbrev pub properties : CustomerRecord → Dict String
properties c =
    ("id", c.id)
    ∷ ("name", c.name)
    ∷ ("email", c.email)
    ∷ ("phone", c.phone)
    ∷ ("ssn", c.ssn)
    ∷ ("address", c.address)
    ∷ []

-- The constructor of `CustomerDataRegistry`.
unfoldable pub init_registry : List CustomerRecord → Dict CustomerRecord
unfolding set_all
init_registry seed = set_all (λ c. c.id) seed []

abbrev pub default_seed_customers : List CustomerRecord
default_seed_customers =
    record {
      id = "cust-001";
      name = "Jordan Ellis";
      email = "jordan.ellis@example.com";
      phone = "555-0101";
      ssn = "123-45-6789";
      address = "12 Birch Street, Springfield";
    }
    ∷ record {
      id = "cust-002";
      name = "Priya Nair";
      email = "priya.nair@example.com";
      phone = "555-0102";
      ssn = "987-65-4321";
      address = "48 Maple Avenue, Riverton";
    }
    ∷ []

-- The codes of the layer's own denials, beside those of the gateway.
pub data CustomerDenyCode : Type 0 where
  by_gateway : DenyCode → CustomerDenyCode
  unknown_customer redaction_rule_unavailable : CustomerDenyCode

pub data CustomerDataAccessResult : Type 0 where
  granted : Dict String → List String → CustomerDataAccessResult
  refused : CustomerDenyCode → String → CustomerDataAccessResult

abbrev pub customer_read_action : String
customer_read_action = "customer:read"

abbrev pub scope_of : Option Token → List String
scope_of none = []
scope_of (some t) = t.scope

abbrev pub subject_of : Option Token → String
subject_of none = "unknown"
subject_of (some t) = t.subject

module _ (pf : Platform) (token_id : String) (now : ℕ) where
  -- A denial of this layer: logged, then returned.
  unfoldable pub refuse : CustomerDenyCode → String → String → Action CustomerDataAccessResult
  unfolding record_entry
  refuse code reason message = do
    record_entry pf
        (record (fields "unknown" customer_read_action denied) {
          token_id = some token_id;
          reason_code = some reason;
          message = some message;
        })
        now
    pure (refused code message)

  -- From the second read of the token on: redact, and log what was visible.
  unfoldable pub reveal :
      CustomerRecord → RedactionRule → Option Token → Action CustomerDataAccessResult
  unfolding apply_redaction record_entry
  reveal customer rule token = do
    let (visible, redacted) = apply_redaction (properties customer) rule (scope_of token)
    record_entry pf
        (record (fields (subject_of token) customer_read_action data_accessed) {
          token_id = some token_id;
          redacted_fields = some redacted;
        })
        now
    pure (granted visible redacted)

  unfoldable pub with_rule :
      CustomerRecord → String → Option RedactionRule → Action CustomerDataAccessResult
  unfolding refuse reveal token_get template
  with_rule customer rule_id none = refuse redaction_rule_unavailable "redaction_rule_unavailable" (
      template (
        "Redaction rule \"" ∷ rule_id
        ∷ "\" could not be resolved — denying access rather than returning customer data with an unknown redaction policy applied."
        ∷ []))
  with_rule customer rule_id (some rule) = token_get pf token_id >>= reveal customer rule

  unfoldable pub with_customer :
      String → String → Option CustomerRecord → Action CustomerDataAccessResult
  unfolding refuse with_rule template
  with_customer customer_id rule_id none =
      refuse unknown_customer "unknown_customer"
        (template ("No customer found with id \"" ∷ customer_id ∷ "\"." ∷ []))
  with_customer customer_id rule_id (some customer) =
      gets (λ w. get rule_id w.rules) >>= with_rule customer rule_id

  -- What follows the gateway's decision.
  unfoldable pub after_decision :
      Dict CustomerRecord → String → String → EnforcementDecision → Action CustomerDataAccessResult
  unfolding with_customer
  after_decision customers customer_id rule_id (deny code message) =
      pure (refused (by_gateway code) message)
  after_decision customers customer_id rule_id allow =
      with_customer customer_id rule_id (lookup customer_id customers)

  -- `accessCustomerData`
  unfoldable pub access_customer_data :
      Dict CustomerRecord → String → String → String → Action CustomerDataAccessResult
  unfolding after_decision enforce_token
  access_customer_data customers secret customer_id rule_id =
      enforce_token pf token_id secret customer_read_action now
      >>= after_decision customers customer_id rule_id
