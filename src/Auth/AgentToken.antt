-- ===== src/Auth/AgentToken.antt =====
-- src/auth/agent-token.ts. SHA-256, HMAC-SHA-256 and the service's signing key come from outside
-- the repository: they are the fields of `Signer`.
use agentmesh_mcp.Prelude.{
  ℕ, ◌/◌, ◌%◌, Bool, false, not, Option, none, some, [], ◌∷◌, ◌++◌, map, Text, codes, text_eq,
  lower, ltb, ◌==◌, length, take, if◌then◌else◌,
}
use agentmesh_mcp.Schema.{Uuid}
use agentmesh_mcp.Auth.Uuid.{uuid_text, hex_digit}
use agentmesh_mcp.Auth.Pattern.{matches, token_pattern}

-- Key, digest and text are buffers or texts; the MAC is in base64url.
pub record Signer : Type 0 where
  pub sha256 : Text → Text
  pub hmac_sha256 : Text → Text → Text
  pub signing_key : Text

abbrev pub agent_prefix : Text
agent_prefix = codes "am_agent_"

abbrev pub drop : ℕ → Text → Text
drop ℕ.zero t = t
drop (ℕ.suc n) [] = []
drop (ℕ.suc n) (c ∷ t) = drop n t

-- The first group of the pattern: the id, in lower case.
unfoldable pub parse_agent_token : Text → Option Text
parse_agent_token token =
    if matches (token_pattern agent_prefix) token
    then some (map lower (take 36 (drop 9 token)))
    else none

-- `Buffer.toString("hex")`
unfoldable pub to_hex : Text → Text
unfolding hex_digit
to_hex [] = []
to_hex (b ∷ bs) = hex_digit (b / 16) ∷ hex_digit (b % 16) ∷ to_hex bs

unfoldable pub digest_registration_id : Signer → Uuid → Text → Text
digest_registration_id s project_id session_instance_id = s.sha256 (
    codes "agentmesh-registration-v1"
    ++ (0 ∷ map lower (uuid_text project_id))
    ++ (0 ∷ map lower session_instance_id))

-- The MAC over the project, the agent and its registration, joined by colons.
unfoldable pub agent_mac : Signer → Uuid → Uuid → Text → Text
agent_mac s project_id agent_id registration_digest = s.hmac_sha256 s.signing_key (
    codes "agentmesh-agent-v1:"
    ++ (map lower (uuid_text project_id)
        ++ (b':' ∷ map lower (uuid_text agent_id) ++ (b':' ∷ to_hex registration_digest))))

-- `none` is the exception on a short key or a digest that is not 32 bytes long.
unfoldable pub derive_agent_token : Signer → Uuid → Uuid → Text → Option Text
derive_agent_token s project_id agent_id registration_digest =
    if ltb (length s.signing_key) 32
    then none
    else if not (length registration_digest == 32)
    then none
    else some (
        agent_prefix
        ++ (map lower (uuid_text agent_id)
            ++ (b'.' ∷ agent_mac s project_id agent_id registration_digest)))

compare_tokens : Text → Option Text → Option Bool
compare_tokens token none = none
compare_tokens token (some expected) = some (text_eq token expected)

verify_parsed : Signer → Text → Uuid → Uuid → Text → Option Text → Option Bool
verify_parsed s token project_id agent_id registration_digest none = some false
verify_parsed s token project_id agent_id registration_digest (some parsed_id) =
    if not (text_eq parsed_id (map lower (uuid_text agent_id)))
    then some false
    else compare_tokens token (derive_agent_token s project_id agent_id registration_digest)

unfoldable pub verify_agent_token : Signer → Text → Uuid → Uuid → Text → Option Bool
unfolding verify_parsed compare_tokens
verify_agent_token s token project_id agent_id registration_digest =
    verify_parsed s token project_id agent_id registration_digest (parse_agent_token token)
