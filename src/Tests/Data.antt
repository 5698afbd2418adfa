-- ===== src/Tests/Data.antt =====
-- A signer, agents and their tokens for the tests.
use agentmesh_mcp.Prelude.{
  ℕ, zero, suc, ◌≡◌, refl, none, [], ◌∷◌, ◌++◌, Text, codes, take, find, select, update, delete,
  order_by, text_eq, lower,
}
use agentmesh_mcp.Schema.{Uuid, Agent, Db, empty_db}
use agentmesh_mcp.Transaction.{ok}
use agentmesh_mcp.Activity.{OperationContext}
use agentmesh_mcp.Auth.Uuid.{uuid_text, uuid_value, hex_group, hex_digit}
use agentmesh_mcp.Auth.Pattern.{
  matches, token_pattern, uuid_v4_pattern, is_base64url, is_hex, is_variant,
}
use agentmesh_mcp.Auth.AgentToken.{
  Signer, agent_mac, derive_agent_token, agent_prefix, parse_agent_token, verify_agent_token,
}
use agentmesh_mcp.Agents.Authentication.{Authenticator, agent_authenticator, authenticate_agent}

abbrev pub repeat : ℕ → ℕ → Text
repeat zero c = []
repeat (suc n) c = c ∷ repeat n c

abbrev pub reverse_onto : Text → Text → Text
reverse_onto [] acc = acc
reverse_onto (c ∷ cs) acc = reverse_onto cs (c ∷ acc)

-- A hash and a MAC of the right lengths.
abbrev pub signer : Signer
signer = record {
  sha256 = λ t. take 32 (reverse_onto t (repeat 32 0));
  hmac_sha256 = λ key t. repeat 43 b'A';
  signing_key = repeat 32 7;
}

abbrev pub auth : Authenticator
auth = agent_authenticator signer

abbrev pub project : Uuid
project = 302236027655094132490240

-- Version 4 ids.
abbrev pub ann_id : Uuid
ann_id = 302240678275694148452353

abbrev pub bob_id : Uuid
bob_id = 302240678275694148452354

abbrev pub token_of : Uuid → Text
token_of id = agent_prefix ++ (uuid_text id ++ (b'.' ∷ repeat 43 b'A'))

abbrev pub agent_row : Uuid → Text → Agent
agent_row id name = record {
  id = id;
  project_id = project;
  registered_via_token_id = none;
  registration_digest = take 32 (name ++ repeat 32 0);
  name = name;
  client = codes "cli";
  capabilities = [];
  last_seen_at = 1000;
  created_at = 1000;
}

abbrev pub ann : Agent
ann = agent_row ann_id (codes "ann")

abbrev pub bob : Agent
bob = agent_row bob_id (codes "bob")

abbrev pub start : Db
start = record empty_db { agents = ann ∷ bob ∷ [] }

abbrev pub context : OperationContext
context = record { request_id = 1; now = 2000; recorded_at = 2000 }

unfoldable pub authentication : Unit {0}
unfolding authenticate_agent derive_agent_token parse_agent_token verify_agent_token uuid_text
    uuid_value matches find text_eq token_pattern lower uuid_v4_pattern hex_group hex_digit
    is_base64url is_hex is_variant agent_mac
authentication = tt

unfoldable pub queries : Unit {0}
unfolding authentication find select update delete order_by text_eq
queries = tt

pub is_ann : auth.authenticate project (token_of ann_id) start.agents ≡ ok ann
unfolding authentication
is_ann = refl

abbrev pub later : OperationContext
later = record { request_id = 2; now = 5000; recorded_at = 5000 }
