-- ===== src/WebAuth/Identity/Laws.antt =====
-- A GitHub identity keeps its user.
use agentmesh_mcp.Prelude.{
  ◌≡◌, refl, sym, ap, Option, none, some, List, [], ◌∷◌, ◌++◌, text_eq_refl, is_some, find,
  find-append, find-update_found, find-true, update, length, length-update, arith, Bool-cases, inl,
  inr,
}
use mathlib.Core.Path.{subst}
use agentmesh_mcp.Schema.{Uuid, Date, Db, OauthIdentity}
use agentmesh_mcp.WebAuth.Session.{is_user}
use agentmesh_mcp.WebAuth.Identity.{
  GitHubProfile, is_identity, snapshot_user, snapshot_identity, apply_profile_snapshots,
  new_identity, insert_identity, upsert_found, upsert_github,
}

find-snapshot :
    (profile : GitHubProfile) (now : Date) (identities : List OauthIdentity) (i : OauthIdentity)
    → find (is_identity profile.id) identities ≡ some i
    → find
        (is_identity profile.id)
        (update (is_identity profile.id) (snapshot_identity profile now) identities)
      ≡ some (snapshot_identity profile now i)
find-snapshot profile now identities i h =
    find-update_found (is_identity profile.id) (is_identity profile.id)
      (snapshot_identity profile now) identities i (λ y. refl) h
      (find-true (is_identity profile.id) identities i h)

find-inserted :
    (profile : GitHubProfile) (now : Date) (id : Uuid) (identities : List OauthIdentity)
    → find (is_identity profile.id) identities ≡ none
    → find (is_identity profile.id) (identities ++ new_identity profile now id ∷ [])
      ≡ some (new_identity profile now id)
unfolding find
find-inserted profile now id identities h =
    rw (find-append (is_identity profile.id) identities (new_identity profile now id ∷ []))
      (rw h (rw (text_eq_refl profile.id) refl))

-- The identity that a sign-in has stored or found, and its user.
find-upsert_found :
    (profile : GitHubProfile) (now : Date) (id : Uuid) (o : Option OauthIdentity) (db : Db)
    (user_id : Uuid) (db' : Db)
    → find (is_identity profile.id) db.oauth_identities ≡ o
    → upsert_found profile now id o db ≡ some (user_id, db')
    → (i : OauthIdentity) × (find (is_identity profile.id) db'.oauth_identities ≡ some i)
      × (i.user_id ≡ user_id)
unfolding upsert_found insert_identity apply_profile_snapshots
find-upsert_found profile now id (some i) db user_id db' found h =
    let rows : update (is_identity profile.id) (snapshot_identity profile now) db.oauth_identities
        ≡ db'.oauth_identities =
      ground arith in
    (
      snapshot_identity profile now i,
      subst
          (λ (t : List OauthIdentity).
            find (is_identity profile.id) t ≡ some (snapshot_identity profile now i))
          rows (find-snapshot profile now db.oauth_identities i found),
      ground arith,
    )
find-upsert_found profile now id none db user_id db' found h0 =
    let h = rw found at h0 in
    elim (Bool-cases (is_some (find (is_user id) db.users))) [
      | inl e ↦ absurd (ground (arith, e))
      | inr e ↦
          let i = new_identity profile now id in
          let rows : update (is_identity profile.id) (snapshot_identity profile now)
                (db.oauth_identities ++ i ∷ [])
              ≡ db'.oauth_identities =
            ground (arith, e) in
          (
            snapshot_identity profile now i,
            subst
                (λ (t : List OauthIdentity).
                  find (is_identity profile.id) t ≡ some (snapshot_identity profile now i))
                rows
                (find-snapshot profile now (db.oauth_identities ++ i ∷ []) i
                  (find-inserted profile now id db.oauth_identities found)),
            ground (arith, e),
          )
    ]

-- A second sign-in with the same GitHub id, whatever else has changed in the profile, gets the
-- user of the first one, and adds neither a user nor an identity.
pub upsert_github_again :
    (profile profile2 : GitHubProfile) (now later : Date) (id id2 user_id : Uuid) (db db' : Db)
    → upsert_github profile now id db ≡ some (user_id, db')
    → profile2.id ≡ profile.id
    → (last : Db) × (upsert_github profile2 later id2 db' ≡ some (user_id, last))
      × (length last.users ≡ length db'.users)
      × (length last.oauth_identities ≡ length db'.oauth_identities)
unfolding upsert_github upsert_found apply_profile_snapshots
upsert_github_again profile profile2 now later id id2 user_id db db' h same =
    let (i, found, whose) =
      find-upsert_found profile now id (find (is_identity profile.id) db.oauth_identities) db
        user_id db' refl h in
    let found2 : find (is_identity profile2.id) db'.oauth_identities ≡ some i =
      subst (λ t. find (is_identity t) db'.oauth_identities ≡ some i) (sym same) found in
    let last = apply_profile_snapshots i.user_id profile2 later db' in
    (
      last,
      rw found2 (ap (λ u. some (u, last)) whose),
      length-update (is_user i.user_id) (snapshot_user profile2 later) db'.users,
      length-update (is_identity profile2.id) (snapshot_identity profile2 later)
          db'.oauth_identities,
    )
