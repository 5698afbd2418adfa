-- ===== src/Auth/Pattern.antt =====
-- The regular expressions of src/auth/agent-token.ts, src/auth/project-token.ts and
-- src/contracts.ts, all anchored and of a fixed length: a test for each character. With the flag
-- `i` a letter matches in either case.
use agentmesh_mcp.Prelude.{
  ℕ, zero, suc, ◌≡◌, Bool, true, false, ◌&&◌, ◌||◌, List, [], ◌∷◌, ◌++◌, map, Text, lower, leb,
  ◌==◌, arith,
}

abbrev pub Pattern : Type 0
Pattern = List (ℕ → Bool)

unfoldable pub matches : Pattern → Text → Bool
matches [] [] = true
matches (p ∷ ps) (c ∷ cs) = p c && matches ps cs
matches _ _ = false

abbrev pub times : ℕ → (ℕ → Bool) → Pattern
times zero p = []
times (suc n) p = p ∷ times n p

-- A literal character under the flag `i`.
abbrev pub letter : ℕ → ℕ → Bool
letter c x = lower x == c

unfoldable pub is_hex : ℕ → Bool
is_hex x = (leb b'0' x && leb x b'9') || (leb b'a' (lower x) && leb (lower x) b'f')

unfoldable pub is_variant : ℕ → Bool
is_variant x = x == b'8' || x == b'9' || lower x == b'a' || lower x == b'b'

unfoldable pub is_base64url : ℕ → Bool
is_base64url x =
    (leb b'0' x && leb x b'9')
    || (leb b'a' x && leb x b'z')
    || (leb b'A' x && leb x b'Z')
    || x == b'_'
    || x == b'-'

abbrev pub hyphen : ℕ → Bool
hyphen x = x == b'-'

-- [0-9a-f]{8}-[0-9a-f]{4}-4[0-9a-f]{3}-[89ab][0-9a-f]{3}-[0-9a-f]{12}
unfoldable pub uuid_v4_pattern : Pattern
unfolding is_hex is_variant
uuid_v4_pattern =
    times 8 is_hex
    ++ hyphen ∷ times 4 is_hex
    ++ hyphen ∷ (λ x. x == b'4') ∷ times 3 is_hex
    ++ hyphen ∷ is_variant ∷ times 3 is_hex
    ++ hyphen ∷ times 12 is_hex

abbrev pub base64url_43 : Pattern
base64url_43 = times 43 is_base64url

-- A prefix, an id, a dot and 43 characters of base64url.
unfoldable pub token_pattern : Text → Pattern
token_pattern prefix = map letter prefix ++ (uuid_v4_pattern ++ (λ x. x == b'.') ∷ base64url_43)

pub matches-append :
    (ps qs : Pattern) (s t : Text)
    → matches ps s ≡ true
    → matches qs t ≡ true
    → matches (ps ++ qs) (s ++ t) ≡ true
unfolding matches
matches-append [] qs [] t h k = k
matches-append [] qs (c ∷ s) t h k = cc
matches-append (p ∷ ps) qs [] t h k = cc
matches-append (p ∷ ps) qs (c ∷ s) t h k = ground (arith, matches-append ps qs s t)
