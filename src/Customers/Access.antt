-- ===== src/Customers/Access.antt =====
-- What src/customerDataAccess.ts lets out, and that it leaves the audit log sound.
use ambit.Common.{ℕ, ◌≡◌, refl, sym, ap, ◌∙◌, Option, none, some, List, String, Dict, lookup}
use ambit.Records.{Token, RedactionRule, fields, denied}
use ambit.Platform.{Platform}
use ambit.Store.{get}
use ambit.World.{World, Action, ok, pure, record_entry}
use ambit.World.Frame.{bind-eq-ok}
use ambit.World.Sound.{IsSound, pure-IsSound, bind-IsSound, record_entry-IsSound}
use ambit.Token.Access.{token_get}
use ambit.Token.Issue.Bounds.{ok-injective}
use ambit.Token.Enforce.{EnforcementDecision, allow, deny, enforce_token}
use ambit.Token.Sound.{token_get-IsSound, enforce_token-IsSound}
use ambit.Redaction.{apply_redaction}
use ambit.Customers.{
  CustomerRecord, properties, CustomerDenyCode, granted, refused, by_gateway, customer_read_action,
  scope_of, refuse, reveal, with_rule, with_customer, after_decision, access_customer_data,
}

module _ (pf : Platform) (token_id : String) (now : ℕ) where
  -- What stands behind data that was let out of a world: the customer, the rule, and the token as it
  -- was read for its scope.
  pub record Revealed (found : Option CustomerRecord) (rule_id : String) (w : World)
      (visible : Dict String) (redacted : List String) : Type 0 where
    pub customer : CustomerRecord
    pub rule : RedactionRule
    pub token : Option Token
    pub known : found ≡ some customer
    pub configured : get rule_id w.rules ≡ some rule
    pub read : (token_get pf token_id w).0 ≡ ok token
    pub redaction :
        apply_redaction (properties customer) rule (scope_of token) ≡ (visible, redacted)

  reveal-granted :
      (c : CustomerRecord) (r : RedactionRule) (t : Option Token) (w : World)
      (visible : Dict String) (redacted : List String)
      → (reveal pf token_id now c r t w).0 ≡ ok (granted visible redacted)
      → apply_redaction (properties c) r (scope_of t) ≡ (visible, redacted)
  unfolding reveal record_entry
  reveal-granted c r t w visible redacted h = let same = ok-injective h in cc

  refuse-refuses :
      (code : CustomerDenyCode) (reason message : String) (w : World) (visible : Dict String)
      (redacted : List String)
      → (refuse pf token_id now code reason message w).0 ≡ ok (granted visible redacted)
      → ⊥
  unfolding refuse record_entry
  refuse-refuses code reason message w visible redacted h =
      let log : Action (Unit {0}) =
        record_entry pf
          (record (fields "unknown" customer_read_action denied) {
            token_id = some token_id;
            reason_code = some reason;
            message = some message;
          })
          now in
      let (a, done, rest) = bind-eq-ok log (λ _. pure (refused code message)) w _ h in
      let same : refused code message ≡ granted visible redacted =
        ok-injective (ap (λ x. x.0) (sym rest) ∙ h) in
      cc same

  with_rule-granted :
      (c : CustomerRecord) (rule_id : String) (rule : Option RedactionRule) (w : World)
      (visible : Dict String) (redacted : List String)
      → get rule_id w.rules ≡ rule
      → (with_rule pf token_id now c rule_id rule w).0 ≡ ok (granted visible redacted)
      → Revealed (some c) rule_id w visible redacted
  unfolding with_rule
  with_rule-granted c rule_id none w visible redacted e h =
      absurd (refuse-refuses _ _ _ w visible redacted h)
  with_rule-granted c rule_id (some rule) w visible redacted e h =
      let (token, read, rest) =
        bind-eq-ok (token_get pf token_id) (reveal pf token_id now c rule) w _ h in
      record {
        customer = c;
        rule = rule;
        token = token;
        known = refl;
        configured = e;
        read = read;
        redaction =
            reveal-granted c rule token (token_get pf token_id w).1 visible redacted
              (ap (λ x. x.0) (sym rest) ∙ h);
      }

  with_customer-granted :
      (customer_id rule_id : String) (found : Option CustomerRecord) (w : World)
      (visible : Dict String) (redacted : List String)
      → (with_customer pf token_id now customer_id rule_id found w).0
        ≡ ok (granted visible redacted)
      → Revealed found rule_id w visible redacted
  unfolding with_customer
  with_customer-granted customer_id rule_id none w visible redacted h =
      absurd (refuse-refuses _ _ _ w visible redacted h)
  with_customer-granted customer_id rule_id (some c) w visible redacted h =
      with_rule-granted c rule_id (get rule_id w.rules) w visible redacted refl h

  -- The way in: the gateway allowed the read, and what follows is in the world that it left.
  pub Passed :
      Dict CustomerRecord → String → String → String → World → Dict String → List String → Type 0
  Passed customers secret customer_id rule_id w visible redacted =
      ((enforce_token pf token_id secret customer_read_action now w).0 ≡ ok allow)
      × Revealed (lookup customer_id customers) rule_id
          (enforce_token pf token_id secret customer_read_action now w).1 visible redacted

  -- Data is let out only if the gateway allowed the read and the customer and the configured rule
  -- exist, and it is then the customer's record as that rule redacts it for the scope of the token
  -- that is read afterwards: there is no way to an unredacted record.
  pub access_customer_data-redacts :
      (customers : Dict CustomerRecord) (secret customer_id rule_id : String) (w : World)
      (visible : Dict String) (redacted : List String)
      → (access_customer_data pf token_id now customers secret customer_id rule_id w).0
        ≡ ok (granted visible redacted)
      → Passed customers secret customer_id rule_id w visible redacted
  unfolding access_customer_data Passed
  access_customer_data-redacts customers secret customer_id rule_id w visible redacted h =
      let (decision, decided, rest) =
        bind-eq-ok (enforce_token pf token_id secret customer_read_action now)
          (after_decision pf token_id now customers customer_id rule_id) w _ h in
      of_decision decision decided (ap (λ x. x.0) (sym rest) ∙ h)
    where
      of_decision :
          (d : EnforcementDecision)
          → (enforce_token pf token_id secret customer_read_action now w).0 ≡ ok d
          → (after_decision pf token_id now customers customer_id rule_id d
              (enforce_token pf token_id secret customer_read_action now w).1).0
            ≡ ok (granted visible redacted)
          → Passed customers secret customer_id rule_id w visible redacted
      of_decision (deny code message) e g =
          let same : refused (by_gateway code) message ≡ granted visible redacted =
            ok-injective g in
          absurd (cc same)
      of_decision allow e g = (e, with_customer-granted customer_id rule_id _ _ visible redacted g)

  refuse-IsSound :
      (code : CustomerDenyCode) (reason message : String)
      → IsSound pf (refuse pf token_id now code reason message)
  unfolding refuse
  refuse-IsSound code reason message = search (pure-IsSound, bind-IsSound, record_entry-IsSound)

  reveal-IsSound :
      (c : CustomerRecord) (r : RedactionRule) (t : Option Token)
      → IsSound pf (reveal pf token_id now c r t)
  unfolding reveal
  reveal-IsSound c r t = search (bind-IsSound, record_entry-IsSound)

  with_rule-IsSound :
      (c : CustomerRecord) (rule_id : String) (r : Option RedactionRule)
      → IsSound pf (with_rule pf token_id now c rule_id r)
  unfolding with_rule
  with_rule-IsSound c rule_id none = search (refuse-IsSound)
  with_rule-IsSound c rule_id (some r) = search (bind-IsSound, token_get-IsSound, reveal-IsSound)

  after_decision-IsSound :
      (customers : Dict CustomerRecord) (customer_id rule_id : String) (d : EnforcementDecision)
      → IsSound pf (after_decision pf token_id now customers customer_id rule_id d)
  unfolding after_decision with_customer
  after_decision-IsSound customers customer_id rule_id (deny code message) = search (pure-IsSound)
  after_decision-IsSound customers customer_id rule_id allow =
      of_found (lookup customer_id customers)
    where
      of_found :
          (found : Option CustomerRecord)
          → IsSound pf (with_customer pf token_id now customer_id rule_id found)
      of_found none w = refuse-IsSound _ _ _ w
      of_found (some c) w = with_rule-IsSound c rule_id (get rule_id w.rules) w

  pub access_customer_data-IsSound :
      (customers : Dict CustomerRecord) (secret customer_id rule_id : String)
      → IsSound pf (access_customer_data pf token_id now customers secret customer_id rule_id)
  unfolding access_customer_data
  access_customer_data-IsSound customers secret customer_id rule_id =
      search (bind-IsSound, enforce_token-IsSound, after_decision-IsSound)
