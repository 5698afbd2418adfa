-- ===== src/Tests/SignIn.antt =====
-- A sign-in: the cookie of the attempt, its use, and the user it gives.
use agentmesh_mcp.Prelude.{◌≡◌, refl, none, some, [], ◌∷◌, Text, codes, length, here, arith}
use agentmesh_mcp.Schema.{Uuid, Db, empty_db}
use agentmesh_mcp.WebAuth.Credential.{value}
use agentmesh_mcp.WebAuth.Cookie.{
  CookieLibrary, OAuthAttempt, all_base64url, has_control_character, has_character, valid_return,
  valid_attempt, split_dots, derive_oauth_cookie_key, canonical_base64url, seal_oauth_attempt,
  open_text, decrypt_parts, open_parts, open_oauth_attempt,
}
use agentmesh_mcp.WebAuth.Identity.{
  GitHubProfile, display_name, apply_profile_snapshots, insert_identity, upsert_found,
  upsert_github,
}
use agentmesh_mcp.WebAuth.Identity.Laws.{upsert_github_again}
use agentmesh_mcp.WebAuth.SignIn.{
  in_digests, expired_attempts, clean_up, store_attempt, start, is_open_attempt, consumed,
  same_expiry, accept_marked, consume_at, consume, SignedIn, SignInContext, failed, return_of,
  open_session, finish_session, with_user, same_github, with_profile, GitHubClient, profile_with,
  complete,
}
use agentmesh_mcp.WebAuth.SignIn.Laws.{Checked, consume_once, complete_sound}
use agentmesh_mcp.Tests.Data.{repeat}
use agentmesh_mcp.Tests.Sessions.{session, keys, token, csrf, signed_up, issued}

-- A library whose cipher hides nothing, for one attempt.
abbrev attempt : OAuthAttempt
attempt = record {
  state = repeat 43 b's';
  verifier = repeat 43 b'v';
  expires_at = 301000;
  return_to = some (codes "/app");
}

abbrev lib : CookieLibrary
lib = record {
  encrypt = λ key iv t. (t, repeat 16 b't');
  decrypt = λ key iv t tag. some t;
  hmac_sha256 = λ key t. t;
  to_base64url = λ t. t;
  from_base64url = λ t. t;
  print = λ a. codes "attempt";
  parse = λ t. some attempt;
}

unfoldable signing : Unit {0}
unfolding session all_base64url has_control_character has_character valid_return valid_attempt
    split_dots derive_oauth_cookie_key canonical_base64url seal_oauth_attempt open_text
    decrypt_parts open_parts open_oauth_attempt display_name apply_profile_snapshots insert_identity
    upsert_found upsert_github in_digests expired_attempts clean_up store_attempt start
    is_open_attempt consumed same_expiry accept_marked consume_at consume failed return_of
    open_session finish_session with_user same_github with_profile profile_with complete
signing = tt

abbrev key : Text
key = repeat 32 b'k'

abbrev iv : Text
iv = repeat 12 b'i'

abbrev cookie : Text
cookie = codes "v1.iiiiiiiiiiii.attempt.tttttttttttttttt"

abbrev started_db : Db
started_db =
    (start lib key (codes "/app") (some 1000) (repeat 43 b's') (repeat 43 b'v') iv signed_up).1

starts :
    start lib key (codes "/app") (some 1000) (repeat 43 b's') (repeat 43 b'v') iv signed_up
    ≡ (value cookie, started_db)
unfolding signing
starts = refl

-- The first use gives the attempt.
consumes : (consume lib key (cookie ∷ []) (some 2000) started_db).0 ≡ some attempt ∷ []
unfolding signing
consumes = refl

consume_once_example :
    consume lib key
      (cookie ∷ [])
      (some 3000)
      (consume lib key (cookie ∷ []) (some 2000) started_db).1
    ≡ (none ∷ [], (consume lib key (cookie ∷ []) (some 2000) started_db).1)
consume_once_example =
    consume_once lib key (cookie ∷ []) cookie 2000 3000 started_db here (omega arith)

abbrev profile : GitHubProfile
profile = record { id = codes "1"; login = codes "olga2"; name = none; avatar_url = none }

abbrev client : GitHubClient
client = record { exchange_code = λ code verifier. some code; fetch_profile = λ t. some profile }

abbrev context : SignInContext
context = record {
  identity_now = 2000;
  session_now = some 2000;
  recorded_at = 2000;
  user_id = 8;
  session_id = 51;
  session_token = token;
  csrf_token = csrf;
}

abbrev signed : SignedIn
signed = record { session = issued 51 token 2000; return_to = codes "/app" }

abbrev signed_db : Db
signed_db = (complete keys client context attempt (codes "code") (repeat 43 b's') none signed_up).1

completes :
    complete keys client context attempt (codes "code") (repeat 43 b's') none signed_up
    ≡ (some signed, signed_db)
unfolding signing
completes = refl

complete_sound_example :
    (p : GitHubProfile) × (user_id : Uuid) × (known : Db) × Checked keys client attempt
      (codes "code")
      (repeat 43 b's')
      none
      p
    × (upsert_github p 2000 8 signed_up ≡ some (user_id, known))
    × ((open_session keys context none user_id known).0 ≡ value (issued 51 token 2000))
complete_sound_example =
    complete_sound keys client context attempt (codes "code") (repeat 43 b's') none signed_up signed
      signed_db completes

abbrev newcomer : GitHubProfile
newcomer = record { id = codes "2"; login = codes "ned"; name = none; avatar_url = none }

abbrev renamed : GitHubProfile
renamed = record newcomer { login = codes "neddy"; name = some (codes "Ned") }

-- A GitHub id that is not known makes a user.
abbrev joined_db : Db
joined_db = elim (upsert_github newcomer 2000 8 signed_up) [ none ↦ empty_db | some (u, db) ↦ db ]

joins : upsert_github newcomer 2000 8 signed_up ≡ some (8, joined_db)
unfolding signing
joins = refl

upsert_github_again_example :
    (last : Db) × (upsert_github renamed 3000 9 joined_db ≡ some (8, last))
    × (length last.users ≡ length joined_db.users)
    × (length last.oauth_identities ≡ length joined_db.oauth_identities)
upsert_github_again_example =
    upsert_github_again newcomer renamed 2000 3000 8 9 8 signed_up joined_db joins refl
