-- ===== src/WebAuth/SignIn/Laws.antt =====
-- A sign-in: an attempt is used once, and what a sign-in that succeeds has checked.
use agentmesh_mcp.Prelude.{
  ◌≤◌, ◌≡◌, refl, true, false, ◌&&◌, Option, none, some, List, [], ◌∷◌, map, Text, text_eq,
  text_eq_iff, text_eq_refl, find, update, update-none, select-none, All, All-updated, Row, here,
  there, arith, Bool-cases, inl, inr,
}
use mathlib.Core.Path.{subst}
use agentmesh_mcp.Schema.{Uuid, Date, Db, OauthAttempt}
use agentmesh_mcp.WebAuth.Credential.{
  WebKeys, Outcome, value, null, thrown, is_canonical_web_credential,
}
use agentmesh_mcp.WebAuth.Session.{AuthenticatedWebSession, IssuedWebSession}
use agentmesh_mcp.WebAuth.Cookie.{CookieLibrary, OAuthAttempt}
use agentmesh_mcp.WebAuth.Identity.{GitHubProfile, upsert_github}
use agentmesh_mcp.WebAuth.SignIn.{
  attempt_digest, in_digests, is_open_attempt, is_marked, consumed, accept_marked, consume_at,
  consume, SignedIn, SignInContext, open_session, failed, finish_session, with_user, same_github,
  with_profile, GitHubClient, profile_with, complete,
}

in_digests-map :
    (f : Text → Text) {c : Text} {cookies : List Text}
    → Row c cookies
    → in_digests (map f cookies) (f c) ≡ true
unfolding in_digests
in_digests-map f {c} here = ground (arith, text_eq_refl (f c))
in_digests-map f (there r) = ground (arith, in_digests-map f r)

in_digests_one : (x d : Text) → in_digests (x ∷ []) d ≡ true → x ≡ d
unfolding in_digests
in_digests_one x d h = (text_eq_iff x d).0 (ground arith)

consumed-closed :
    (now later : Date) (a : OauthAttempt) → is_open_attempt later (consumed now a) ≡ false
unfolding is_open_attempt consumed
consumed-closed now later a = ground arith

open_before :
    (now later : Date) (a : OauthAttempt)
    → now ≤ later
    → is_open_attempt later a ≡ true
    → is_open_attempt now a ≡ true
unfolding is_open_attempt
open_before now later a h k = ground arith

-- After a call with a cookie, no row of the table is marked for it.
unmarked :
    (lib : CookieLibrary) (key : Text) (cookies : List Text) (c : Text) (now later : Date)
    (attempts : List OauthAttempt)
    → Row c cookies
    → now ≤ later
    → All
        (λ a. is_marked lib key (c ∷ []) later a ≡ false)
        (update (is_marked lib key cookies now) (consumed now) attempts)
unmarked lib key cookies c now later attempts r h =
    All-updated (λ a. is_marked lib key (c ∷ []) later a ≡ false) (is_marked lib key cookies now)
      (consumed now) attempts (λ a e. ground (arith, consumed-closed now later a))
      (λ a e. elim (Bool-cases (is_marked lib key (c ∷ []) later a)) [
        | inl k ↦
            let same : attempt_digest lib key c ≡ a.attempt_digest =
              in_digests_one (attempt_digest lib key c) a.attempt_digest (ground (arith, k)) in
            let listed : in_digests (map (attempt_digest lib key) cookies) a.attempt_digest ≡ true =
              subst (λ d. in_digests (map (attempt_digest lib key) cookies) d ≡ true) same
                (in_digests-map (attempt_digest lib key) r) in
            absurd (ground (arith, listed, e, k, open_before now later a h))
        | inr k ↦ k
      ])

-- Once a cookie was among the cookies of a call, a later call with it is answered with null, at
-- whatever later time, and changes nothing.
pub consume_once :
    (lib : CookieLibrary) (key : Text) (cookies : List Text) (c : Text) (now later : Date) (db : Db)
    → Row c cookies
    → now ≤ later
    → consume lib key (c ∷ []) (some later) (consume lib key cookies (some now) db).1
      ≡ (none ∷ [], (consume lib key cookies (some now) db).1)
unfolding consume consume_at accept_marked find
consume_once lib key cookies c now later db r h =
    let gone = unmarked lib key cookies c now later db.oauth_attempts r h in
    let rows = update (is_marked lib key cookies now) (consumed now) db.oauth_attempts in
    rw (select-none (is_marked lib key (c ∷ []) later) rows gone)
      (rw (update-none (is_marked lib key (c ∷ []) later) (consumed later) rows gone) refl)

-- What the checks of a sign-in have passed when it returns a session.
pub record Checked (keys : WebKeys) (client : GitHubClient) (attempt : OAuthAttempt)
    (code state : Text) (current : Option AuthenticatedWebSession) (profile : GitHubProfile)
    : Type 0 where
  pub canonical : is_canonical_web_credential keys state ≡ true
  pub bound : state ≡ attempt.state
  pub fetched : profile_with client (client.exchange_code code attempt.verifier) ≡ some profile
  pub same : same_github current profile ≡ true

finish_session-some :
    (c : SignInContext) (attempt : OAuthAttempt) (user_id : Uuid)
    (r : Outcome IssuedWebSession × Db) (signed : SignedIn) (db' : Db)
    → finish_session c attempt user_id r ≡ (some signed, db')
    → r.0 ≡ value signed.session
unfolding finish_session failed
finish_session-some c attempt user_id (value s, db) signed db' h = ground arith
finish_session-some c attempt user_id (null, db) signed db' h = absurd (ground arith)
finish_session-some c attempt user_id (thrown, db) signed db' h = absurd (ground arith)

with_user-some :
    (keys : WebKeys) (c : SignInContext) (attempt : OAuthAttempt)
    (current : Option AuthenticatedWebSession) (o : Option (Uuid × Db)) (db : Db)
    (signed : SignedIn) (db' : Db)
    → with_user keys c attempt current o db ≡ (some signed, db')
    → (user_id : Uuid) × (known : Db) × (o ≡ some (user_id, known))
      × ((open_session keys c current user_id known).0 ≡ value signed.session)
unfolding with_user failed
with_user-some keys c attempt current none db signed db' h = absurd (ground arith)
with_user-some keys c attempt current (some (user_id, known)) db signed db' h = (
  user_id,
  known,
  refl,
  finish_session-some c attempt user_id (open_session keys c current user_id known) signed db' h,
)

with_profile-some :
    (keys : WebKeys) (c : SignInContext) (attempt : OAuthAttempt)
    (current : Option AuthenticatedWebSession) (o : Option GitHubProfile) (db : Db)
    (signed : SignedIn) (db' : Db)
    → with_profile keys c attempt current o db ≡ (some signed, db')
    → (profile : GitHubProfile) × (o ≡ some profile)
      × (same_github current profile ≡ true)
      × (with_user keys c attempt current (upsert_github profile c.identity_now c.user_id db) db
          ≡ (some signed, db'))
unfolding with_profile failed
with_profile-some keys c attempt current none db signed db' h = absurd (ground arith)
with_profile-some keys c attempt current (some profile) db signed db' h =
    elim (Bool-cases (same_github current profile)) [
      | inl e ↦ (profile, refl, e, ground (arith, e))
      | inr e ↦ absurd (ground (arith, e))
    ]

-- A sign-in that succeeds had the canonical state of its attempt, a profile that GitHub gave for
-- the attempt's code and verifier, which is the profile of the current session where there is one;
-- and the session that it returns was opened for the user whom this profile names.
pub complete_sound :
    (keys : WebKeys) (client : GitHubClient) (c : SignInContext) (attempt : OAuthAttempt)
    (code state : Text) (current : Option AuthenticatedWebSession) (db : Db) (signed : SignedIn)
    (db' : Db)
    → complete keys client c attempt code state current db ≡ (some signed, db')
    → (profile : GitHubProfile) × (user_id : Uuid) × (known : Db) × Checked keys client attempt code
        state current profile
      × (upsert_github profile c.identity_now c.user_id db ≡ some (user_id, known))
      × ((open_session keys c current user_id known).0 ≡ value signed.session)
unfolding complete failed
complete_sound keys client c attempt code state current db signed db' h =
    elim (Bool-cases (is_canonical_web_credential keys state && text_eq state attempt.state)) [
      | inl e ↦
          let (profile, fetched, same, h1) =
            with_profile-some keys c attempt current
              (profile_with client (client.exchange_code code attempt.verifier)) db signed db'
              (ground (arith, e)) in
          let (user_id, known, found, opened) =
            with_user-some keys c attempt current
              (upsert_github profile c.identity_now c.user_id db) db signed db' h1 in
          (
            profile,
            user_id,
            known,
            record {
              canonical = ground (arith, e);
              bound = (text_eq_iff state attempt.state).0 (ground (arith, e));
              fetched = fetched;
              same = same;
            },
            found,
            opened,
          )
      | inr e ↦ absurd (ground (arith, e))
    ]
