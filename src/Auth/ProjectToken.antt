-- ===== src/Auth/ProjectToken.antt =====
-- src/auth/project-token.ts. The random id and secret of a new token are arguments.
use agentmesh_mcp.Prelude.{
  Bool, false, Option, none, some, ◌∷◌, ◌++◌, map, Text, codes, text_eq, lower, take, if◌then◌else◌,
  length, ◌==◌, ◌&&◌,
}
use agentmesh_mcp.Schema.{Uuid}
use agentmesh_mcp.Auth.Uuid.{uuid_text}
use agentmesh_mcp.Auth.Pattern.{matches, token_pattern}
use agentmesh_mcp.Auth.AgentToken.{drop}

abbrev pub project_prefix : Text
project_prefix = codes "am_proj_"

pub record CreatedProjectToken : Type 0 where
  pub token_id : Uuid
  pub token : Text
  pub digest : Text

-- `sha256` is the hash of node:crypto.
module _ (sha256 : Text → Text) where
  unfoldable pub create_project_token : Uuid → Text → CreatedProjectToken
  create_project_token token_id secret =
      let token = project_prefix ++ (uuid_text token_id ++ (b'.' ∷ secret)) in
      record { token_id = token_id; token = token; digest = sha256 token }

  unfoldable pub parse_project_token : Text → Option Text
  parse_project_token token =
      if matches (token_pattern project_prefix) token
      then some (map lower (take 36 (drop 8 token)))
      else none

  digest_parsed : Text → Option Text → Option Text
  digest_parsed token none = none
  digest_parsed token (some id) = some (sha256 token)

  unfoldable pub digest_project_token : Text → Option Text
  unfolding digest_parsed parse_project_token
  digest_project_token token = digest_parsed token (parse_project_token token)

  verify_digest : Text → Option Text → Bool
  verify_digest expected none = false
  verify_digest expected (some actual) =
      (length expected == length actual) && text_eq actual expected

  unfoldable pub verify_project_token : Text → Text → Bool
  unfolding verify_digest digest_project_token
  verify_project_token token expected = verify_digest expected (digest_project_token token)
