-- ===== src/Agents.antt =====
-- src/agentIdentity.ts: the registered agents and their credentials. `registerAgentIdentity` awaits the
-- hash of the new secret, so it has two segments.
pub mod Sound
pub mod Credentials
use ambit.Common.{
  ℕ, Bool, true, false, ◌||◌, Option, none, some, List, [], ◌∷◌, String, if◌then◌else◌, str_eq,
  is_blank, is_some, find, values, cut, template,
}
use ambit.Records.{AgentIdentity, fields, agent_identity_registered}
use ambit.Platform.{Platform}
use ambit.Store.{get, save}
use ambit.Password.{verify_password}
use ambit.World.{
  World, Action, ok, pure, raise, ◌>>=◌, ◌>>◌, draw_uuid, record_entry, invalid_agent_identity,
  duplicate_agent_identity,
}
use ambit.Token.Issue.{make_secret}

-- `AgentIdentityStore.findBySubject`
unfoldable pub find_by_subject : String → World → Option AgentIdentity
find_by_subject subject w = find (λ i. str_eq i.subject subject) (values w.identities.items)

-- `AgentIdentityStore.list`
unfoldable pub identity_list : World → List AgentIdentity
identity_list w = values w.identities.items

-- `AgentIdentityStore.get`
unfoldable pub get_identity : String → World → Option AgentIdentity
get_identity id w = get id w.identities

-- `validate`, over what `findBySubject` finds.
unfoldable pub validate_found : String → Option AgentIdentity → Action (Unit {0})
unfolding is_blank
validate_found subject found =
    if str_eq subject "" || is_blank subject
    then raise (invalid_agent_identity "subject is required")
    else if is_some found
    then raise (
        duplicate_agent_identity
          (template ("an agent identity for subject \"" ∷ subject ∷ "\" already exists" ∷ [])))
    else pure tt

-- `validate`
unfoldable pub validate : String → Action (Unit {0})
unfolding validate_found find_by_subject
validate subject w = validate_found subject (find_by_subject subject w) w

-- What the first segment of a registration has settled.
pub record IdentityDraft : Type 0 where
  pub id : String
  pub secret : String
  pub secret_hash : String

pub record RegisteredAgentIdentity : Type 0 where
  pub identity : AgentIdentity
  pub credential : String

module _ (pf : Platform) where
  unfoldable pub put_identity : AgentIdentity → World → World
  put_identity i w = record w { identities = save i.id i (pf.json_identity i) w.identities }

  -- `AgentIdentityStore.save`
  unfoldable pub save_identity : AgentIdentity → Action (Unit {0})
  unfolding put_identity
  save_identity i w = (ok tt, put_identity i w)

  -- Up to the `await`.
  unfoldable pub register_begin : String → Action IdentityDraft
  unfolding validate draw_uuid make_secret
  register_begin subject = do
    validate subject
    id ← draw_uuid pf
    made ← make_secret pf
    pure (record { id = id; secret = made.0; secret_hash = made.1 })

  abbrev pub identity_of : String → String → ℕ → IdentityDraft → AgentIdentity
  identity_of subject created_by now d = record {
    id = d.id;
    subject = subject;
    secret_hash = d.secret_hash;
    created_by = created_by;
    created_at = now;
  }

  -- After it.
  unfoldable pub register_finish :
      String → String → ℕ → IdentityDraft → Action RegisteredAgentIdentity
  unfolding save_identity record_entry template
  register_finish subject created_by now d = do
    save_identity (identity_of subject created_by now d)
    record_entry pf
        (record (fields subject "register_agent_identity" agent_identity_registered) {
          actor = some created_by;
        })
        now
    pure (record {
      identity = identity_of subject created_by now d;
      credential = template (d.id ∷ "." ∷ d.secret ∷ []);
    })

  -- `registerAgentIdentity`, with nothing between its segments.
  unfoldable pub register_agent_identity : String → String → ℕ → Action RegisteredAgentIdentity
  unfolding register_begin register_finish
  register_agent_identity subject created_by now =
      register_begin subject >>= register_finish subject created_by now

  -- `authenticateAgent`, by the identity that is stored under the id.
  unfoldable pub authenticate_found : String → Option AgentIdentity → Option AgentIdentity
  authenticate_found secret none = none
  authenticate_found secret (some i) =
      if verify_password pf secret i.secret_hash then some i else none

  -- `authenticateAgent`, by the parts before and after the first dot.
  unfoldable pub authenticate_parts : String × Option String → World → Option AgentIdentity
  unfolding authenticate_found get_identity
  authenticate_parts (id, none) w = none
  authenticate_parts (id, some secret) w =
      if str_eq id "" || str_eq secret ""
      then none
      else authenticate_found secret (get_identity id w)

  -- `authenticateAgent`
  unfoldable pub authenticate_agent : String → World → Option AgentIdentity
  unfolding authenticate_parts cut
  authenticate_agent credential w = authenticate_parts (cut b'.' credential) w
