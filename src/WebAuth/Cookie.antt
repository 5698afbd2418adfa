-- ===== src/WebAuth/Cookie.antt =====
-- src/web-auth/oauth-cookie.ts: the sealed cookie of a sign-in. The random initial vector is an
-- argument.
use agentmesh_mcp.Prelude.{
  ℕ, Bool, true, false, not, ◌&&◌, ◌||◌, Option, none, some, List, [], ◌∷◌, ◌++◌, Text, codes,
  text_eq, length, ◌==◌, ltb, leb, if◌then◌else◌,
}
use agentmesh_mcp.Schema.{Date}
use agentmesh_mcp.Auth.Pattern.{is_base64url}

pub record OAuthAttempt : Type 0 where
  pub state : Text
  pub verifier : Text
  pub expires_at : Date
  pub return_to : Option Text

-- What comes from node:crypto, Buffer and JSON: AES-256-GCM (key, initial vector, text; the result
-- is the text and its tag), its inverse (`none` where the tag is wrong), HMAC-SHA-256, base64url and
-- its reading, and the text of an attempt and its reading (`none` for another shape of value).
pub record CookieLibrary : Type 0 where
  pub encrypt : Text → Text → Text → Text × Text
  pub decrypt : Text → Text → Text → Text → Option Text
  pub hmac_sha256 : Text → Text → Text
  pub to_base64url : Text → Text
  pub from_base64url : Text → Text
  pub print : OAuthAttempt → Text
  pub parse : Text → Option OAuthAttempt

abbrev pub max_cookie_length : ℕ
max_cookie_length = 4096

unfoldable pub all_base64url : Text → Bool
all_base64url [] = true
all_base64url (c ∷ cs) = is_base64url c && all_base64url cs

unfoldable pub has_control_character : Text → Bool
has_control_character [] = false
has_control_character (c ∷ cs) = leb c 31 || c == 127 || has_control_character cs

unfoldable pub has_character : ℕ → Text → Bool
has_character c [] = false
has_character c (d ∷ ds) = c == d || has_character c ds

unfoldable pub valid_return : Option Text → Bool
valid_return none = true
valid_return (some t) =
    ltb 0 (length t)
    && (leb (length t) 2048 && (not (has_control_character t) && not (has_character 92 t)))

-- Number.isSafeInteger
abbrev pub safe_integer : ℕ → Bool
safe_integer n = leb n 9007199254740991

unfoldable pub valid_attempt : OAuthAttempt → Bool
valid_attempt a =
    (ltb 0 (length a.state) && leb (length a.state) 512)
    && ((ltb 0 (length a.verifier) && leb (length a.verifier) 512)
        && (safe_integer a.expires_at && valid_return a.return_to))

-- The parts of a text between the dots.
unfoldable pub split_dots : Text → Text × List Text
split_dots [] = ([], [])
split_dots (c ∷ cs) = cons_part c (split_dots cs)
  where
    cons_part : ℕ → Text × List Text → Text × List Text
    cons_part c (part, parts) = if c == b'.' then ([], part ∷ parts) else (c ∷ part, parts)

module _ (lib : CookieLibrary) where
  -- `none` for a key of another length than 32 bytes.
  unfoldable pub derive_oauth_cookie_key : Text → Option Text
  derive_oauth_cookie_key master_key =
      if length master_key == 32
      then some (lib.hmac_sha256 master_key (codes "agentmesh-oauth-cookie-v1"))
      else none

  unfoldable pub canonical_base64url : Text → Option Text
  canonical_base64url value =
      let decoded = lib.from_base64url value in
      if (ltb 0 (length value) && all_base64url value) && text_eq (lib.to_base64url decoded) value
      then some decoded
      else none

  abbrev pub join_sealed : Text → Text × Text → Text
  join_sealed iv (ciphertext, tag) =
      codes "v1."
      ++ (lib.to_base64url iv
          ++ (b'.' ∷ (lib.to_base64url ciphertext ++ (b'.' ∷ lib.to_base64url tag))))

  unfoldable pub seal_oauth_attempt : OAuthAttempt → Text → Text → Option Text
  seal_oauth_attempt attempt master_key iv =
      if valid_attempt attempt
      then elim (derive_oauth_cookie_key master_key) [
        | none ↦ none
        | some key ↦ some (join_sealed iv (lib.encrypt key iv (lib.print attempt)))
      ]
      else none

  -- The JSON that was sealed: a valid attempt that has not expired.
  unfoldable pub open_text : Date → Option Text → Option OAuthAttempt
  open_text now none = none
  open_text now (some text) = elim (lib.parse text) [
    | none ↦ none
    | some a ↦ if valid_attempt a && ltb now a.expires_at then some a else none
  ]

  unfoldable pub decrypt_parts : Option Text → Option Text → Option Text → Option Text → Option Text
  decrypt_parts (some key) (some iv) (some ciphertext) (some tag) =
      if length iv == 12 && length tag == 16 then lib.decrypt key iv ciphertext tag else none
  decrypt_parts _ _ _ _ = none

  unfoldable pub open_parts : Text → Date → Text × List Text → Option OAuthAttempt
  open_parts master_key now (version, iv ∷ ciphertext ∷ tag ∷ []) =
      if text_eq version (codes "v1")
      then open_text now (
          decrypt_parts (derive_oauth_cookie_key master_key) (canonical_base64url iv)
            (canonical_base64url ciphertext) (canonical_base64url tag))
      else none
  open_parts master_key now _ = none

  unfoldable pub open_oauth_attempt : Text → Text → Date → Option OAuthAttempt
  open_oauth_attempt value master_key now =
      if leb (length value) max_cookie_length
      then open_parts master_key now (split_dots value)
      else none
