-- ===== src/WebAuth/Credential.antt =====
-- src/web-auth/session-token.ts: the credentials of a browser session and their digests. The random
-- tokens are arguments.
use agentmesh_mcp.Prelude.{
  Bool, false, ◌&&◌, Option, none, some, Text, text_eq, length, ◌==◌, if◌then◌else◌,
}
use agentmesh_mcp.Auth.Pattern.{matches, base64url_43}

-- `hmac_sha256` is node:crypto's, the key first; `is_canonical` says that Buffer decodes a text of
-- 43 characters of base64url into 32 bytes that it encodes as the same text.
pub record WebKeys : Type 0 where
  pub hmac_sha256 : Text → Text → Text
  pub is_canonical : Text → Bool
  pub session_digest_key : Text
  pub csrf_digest_key : Text

-- A key of another length than 32 bytes throws: no value.
unfoldable pub digest : (Text → Text → Text) → Text → Text → Option Text
digest hmac_sha256 raw key = if length key == 32 then some (hmac_sha256 key raw) else none

unfoldable pub is_canonical_web_credential : WebKeys → Text → Bool
is_canonical_web_credential keys value = matches base64url_43 value && keys.is_canonical value

unfoldable pub equal_digest : Option Text → Text → Option Bool
equal_digest none expected = none
equal_digest (some actual) expected =
    some ((length actual == length expected) && text_eq actual expected)

-- No value where the key makes the digest throw.
unfoldable pub verify_csrf : WebKeys → Text → Text → Option Bool
verify_csrf keys csrf_token csrf_digest =
    if is_canonical_web_credential keys csrf_token
    then equal_digest (digest keys.hmac_sha256 csrf_token keys.csrf_digest_key) csrf_digest
    else some false

pub record SessionCredential : Type 0 where
  pub session_token : Text
  pub csrf_token : Text
  pub session_digest : Text
  pub csrf_digest : Text

-- What a call returns: a value, JavaScript's null, or an exception.
pub data Outcome (A : Type 0) : Type 0 where
  value : A → Outcome A
  null thrown : Outcome A

-- For the random session and csrf tokens.
unfoldable pub create_session_credential : WebKeys → Text → Text → Option SessionCredential
create_session_credential keys session_token csrf_token =
    elim (digest keys.hmac_sha256 session_token keys.session_digest_key) [
      | none ↦ none
      | some s ↦ elim (digest keys.hmac_sha256 csrf_token keys.csrf_digest_key) [
        | none ↦ none
        | some c ↦ some (record {
          session_token = session_token;
          csrf_token = csrf_token;
          session_digest = s;
          csrf_digest = c;
        })
      ]
    ]
