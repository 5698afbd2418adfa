-- ===== src/Auth/RoundTrip.antt =====
-- What a token says is what was put into it, and a token is accepted exactly if the service
-- issued it.
use agentmesh_mcp.Prelude.{
  ℕ, zero, suc, ◌≤◌, ◌<◌, ◌^◌, ◌≡◌, refl, sym, ap, ◌∙◌, ◌↔◌, true, some, [], ◌∷◌, ◌++◌, map, Text,
  text_eq, text_eq_iff, text_eq_refl, ◌&&◌, ◌==◌, ==_refl, lower, length, take, arith, Option, Bool,
}
use agentmesh_mcp.Schema.{Uuid}
use agentmesh_mcp.Auth.Uuid.{
  uuid_text, uuid_value, length-uuid_text, lower-uuid_text, uuid_value-uuid_text,
}
use agentmesh_mcp.Auth.Pattern.{
  Pattern, letter, matches, matches-append, token_pattern, uuid_v4_pattern, base64url_43,
}
use agentmesh_mcp.Auth.AgentToken.{
  Signer, agent_prefix, parse_agent_token, agent_mac, derive_agent_token, verify_agent_token,
}
use agentmesh_mcp.Auth.ProjectToken.{project_prefix, create_project_token, verify_project_token}

take-append_exact : (n : ℕ) (xs ys : Text) → length xs ≡ n → take n (xs ++ ys) ≡ xs
take-append_exact zero [] ys h = refl
take-append_exact zero (x ∷ xs) ys h = absurd (omega arith)
take-append_exact (suc n) [] ys h = absurd (omega arith)
take-append_exact (suc n) (x ∷ xs) ys h = ap (λ t. x ∷ t) (take-append_exact n xs ys (omega arith))

matches-cons :
    (p : ℕ → Bool) (ps : Pattern) (c : ℕ) (cs : Text)
    → p c ≡ true
    → matches ps cs ≡ true
    → matches (p ∷ ps) (c ∷ cs) ≡ true
unfolding matches
matches-cons p ps c cs h k = rw h k

-- A token made of a prefix in lower case, the text of a version 4 id and 43 characters.
matches-token :
    (prefix id mac : Text)
    → matches (map letter prefix) prefix ≡ true
    → matches uuid_v4_pattern id ≡ true
    → matches base64url_43 mac ≡ true
    → matches (token_pattern prefix) (prefix ++ (id ++ (b'.' ∷ mac))) ≡ true
unfolding token_pattern
matches-token prefix id mac h k m =
    matches-append _ _ prefix _ h
      (matches-append uuid_v4_pattern _ id _ k (matches-cons _ base64url_43 b'.' mac refl m))

agent_prefix-matches : matches (map letter agent_prefix) agent_prefix ≡ true
unfolding matches lower
agent_prefix-matches = refl

project_prefix-matches : matches (map letter project_prefix) project_prefix ≡ true
unfolding matches lower
project_prefix-matches = refl

parse-agent_token :
    (a : Uuid) (mac : Text)
    → matches uuid_v4_pattern (uuid_text a) ≡ true
    → matches base64url_43 mac ≡ true
    → parse_agent_token (agent_prefix ++ (map lower (uuid_text a) ++ (b'.' ∷ mac)))
      ≡ some (uuid_text a)
unfolding parse_agent_token
parse-agent_token a mac h k = rw lower-uuid_text (
    rw (matches-token agent_prefix (uuid_text a) mac agent_prefix-matches h k) (
      rw (take-append_exact 36 (uuid_text a) (b'.' ∷ mac) (length-uuid_text a))
        (ap some (lower-uuid_text a))))

module _ (s : Signer) (p a : Uuid) (digest : Text) where
  abbrev issued : Text
  issued = agent_prefix ++ (map lower (uuid_text a) ++ (b'.' ∷ agent_mac s p a digest))

  derive-issued :
      32 ≤ length s.signing_key → length digest ≡ 32 → derive_agent_token s p a digest ≡ some issued
  unfolding derive_agent_token
  derive-issued key d = ground arith

  verify_derived :
      (token : Text) (parsed : Option Text)
      → derive_agent_token s p a digest ≡ some issued
      → parse_agent_token token ≡ parsed
      → verify_agent_token s token p a digest ≡ some true
      → token ≡ issued
  unfolding verify_agent_token
  verify_derived token parsed d e v = ground (arith, text_eq_iff token issued)

  verify-issued :
      derive_agent_token s p a digest ≡ some issued
      → parse_agent_token issued ≡ some (uuid_text a)
      → verify_agent_token s issued p a digest ≡ some true
  unfolding verify_agent_token
  verify-issued d e =
      ground (arith, text_eq_refl issued, text_eq_refl (uuid_text a), lower-uuid_text a)

  derive-eq-issued : (token : Text) → derive_agent_token s p a digest ≡ some token → issued ≡ token
  unfolding derive_agent_token
  derive-eq-issued token e = ground arith

-- For an agent with a version 4 id, a signing key of at least 32 bytes, a digest of 32 bytes and
-- a MAC of 43 base64url characters, verification accepts exactly the token that was derived.
pub verify_agent_token_iff :
    (s : Signer) (token : Text) (p a : Uuid) (digest : Text)
    → 32 ≤ length s.signing_key
    → length digest ≡ 32
    → matches uuid_v4_pattern (uuid_text a) ≡ true
    → matches base64url_43 (agent_mac s p a digest) ≡ true
    → (verify_agent_token s token p a digest ≡ some true)
      ↔ (derive_agent_token s p a digest ≡ some token)
verify_agent_token_iff s token p a digest key d h k =
    let derived = derive-issued s p a digest key d in
    let parsed = parse-agent_token a (agent_mac s p a digest) h k in
    (
      λ v. derived ∙ ap some (sym (verify_derived s p a digest token _ derived refl v)),
      λ e.
          let same : issued s p a digest ≡ token = cc derived in
          rw (← same) (verify-issued s p a digest derived parsed),
    )

-- The id that is read from an agent token that the service derived is the agent's.
pub parse-derive_agent_token :
    (s : Signer) (token : Text) (p a : Uuid) (digest : Text)
    → a < 2 ^ 128
    → matches uuid_v4_pattern (uuid_text a) ≡ true
    → matches base64url_43 (agent_mac s p a digest) ≡ true
    → derive_agent_token s p a digest ≡ some token
    → (t : Text) × (parse_agent_token token ≡ some t) × (uuid_value t ≡ a)
parse-derive_agent_token s token p a digest bound h k e = (
  uuid_text a,
  rw (← derive-eq-issued s p a digest token e) (parse-agent_token a (agent_mac s p a digest) h k),
  uuid_value-uuid_text a bound,
)

same_digest :
    (actual expected : Text)
    → ((length expected == length actual) && text_eq actual expected ≡ true) ↔ (actual ≡ expected)
same_digest actual expected = (
  λ h. ground (arith, text_eq_iff actual expected),
  λ e. rw e (ground (arith, text_eq_refl expected, ==_refl (length expected))),
)

-- A created project token, of a version 4 id and a secret of 43 base64url characters, passes
-- verification against the digest stored with it, and against no other digest.
pub verify-create_project_token :
    (sha256 : Text → Text) (id : Uuid) (secret digest : Text)
    → matches uuid_v4_pattern (uuid_text id) ≡ true
    → matches base64url_43 secret ≡ true
    → (verify_project_token sha256 (create_project_token sha256 id secret).token digest ≡ true)
      ↔ ((create_project_token sha256 id secret).digest ≡ digest)
unfolding create_project_token verify_project_token
verify-create_project_token sha256 id secret digest h k =
    rw (matches-token project_prefix (uuid_text id) secret project_prefix-matches h k)
      (same_digest (sha256 (project_prefix ++ (uuid_text id ++ (b'.' ∷ secret)))) digest)
