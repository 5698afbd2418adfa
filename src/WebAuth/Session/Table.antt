-- ===== src/WebAuth/Session/Table.antt =====
-- What every operation of the session service keeps of the table of sessions.
use agentmesh_mcp.Prelude.{
  ◌+◌, ◌≡◌, ◌≤◌, refl, sym, ap, ◌∙◌, Bool, true, ◌&&◌, Option, none, some, List, [], ◌∷◌, Text,
  text_eq, text_eq_iff, ◌==◌, leb, is_some, find, find-none_iff, update, and-true, All, All-append,
  All-update, Row, here, there, Unique, Unique-insert, Unique-update, find-Unique, Bool-cases,
  Option-cases, inl, inr,
}
use mathlib.Core.Path.{subst}
use agentmesh_mcp.Schema.{Uuid, Date, Db, WebSession}
use agentmesh_mcp.Transaction.{valid_date}
use agentmesh_mcp.WebAuth.Credential.{WebKeys, SessionCredential, create_session_credential}
use agentmesh_mcp.WebAuth.Session.{
  idle_lifetime, absolute_lifetime, touch_interval, new_session, is_user, may_sign_in,
  insert_session, issue_with, issue, JoinedSession, next_idle, is_touchable, touched, touch,
  has_digest, revoked,
}
use agentmesh_mcp.WebAuth.Session.Laws.{IsSession}
use agentmesh_mcp.WebAuth.Session.Bounds.{minimum_date-le, new_session-IsSession}

-- Two sessions with the same digest break a unique constraint.
abbrev pub same_digest : WebSession → WebSession → Bool
same_digest a b = text_eq a.token_digest b.token_digest

pub record IsTable (sessions : List WebSession) : Type 0 where
  pub bounds : All IsSession sessions
  pub digests : Unique same_digest sessions

pub empty-IsTable : IsTable []
empty-IsTable = record { bounds = tt; digests = tt }

-- An UPDATE of columns that the bounds and the digests do not speak of.
pub update-IsTable :
    (p : WebSession → Bool) (f : WebSession → WebSession) (sessions : List WebSession)
    → ((s : WebSession) → IsSession s → IsSession (f s))
    → ((s : WebSession) → (f s).token_digest ≡ s.token_digest)
    → IsTable sessions
    → IsTable (update p f sessions)
update-IsTable p f sessions keep same good = record {
  bounds = All-update IsSession p f sessions (λ s h. keep s) good.bounds;
  digests =
      Unique-update same_digest p f (λ x y. ap (λ t. text_eq t y.token_digest) (same x))
        (λ x y. ap (λ t. text_eq x.token_digest t) (same y)) sessions good.digests;
}

pub revoked-IsTable :
    (p : WebSession → Bool) (t : Date) (sessions : List WebSession)
    → IsTable sessions
    → IsTable (update p (revoked t) sessions)
revoked-IsTable p t sessions =
    update-IsTable p (revoked t) sessions (λ s h. record { absolute = h.absolute; idle = h.idle })
      (λ s. refl)

pub insert_session-IsTable :
    (row : WebSession) (credential : SessionCredential) (db : Db)
    → IsSession row
    → IsTable db.web_sessions
    → IsTable (insert_session row credential db).1.web_sessions
unfolding insert_session
insert_session-IsTable row credential db fit good =
    elim (Option-cases
      (find (λ (s : WebSession). text_eq s.token_digest row.token_digest) db.web_sessions)) [
        | inr (s, e) ↦ rw e good
        | inl e ↦ rw e (record {
          bounds = All-append IsSession db.web_sessions (row ∷ []) good.bounds (fit, tt);
          digests =
              Unique-insert same_digest db.web_sessions row
                ((find-none_iff (λ (s : WebSession). text_eq s.token_digest row.token_digest)
                    db.web_sessions).0
                  e)
                good.digests;
        })
      ]

issue_with-IsTable :
    (user_id : Uuid) (now : Date) (id : Uuid) (o : Option SessionCredential) (db : Db)
    → IsTable db.web_sessions
    → IsTable (issue_with user_id now id o db).1.web_sessions
unfolding issue_with
issue_with-IsTable user_id now id none db good = good
issue_with-IsTable user_id now id (some credential) db good =
    elim (Bool-cases (valid_date (now + absolute_lifetime) && valid_date (now + idle_lifetime))) [
      | inr e ↦ rw e good
      | inl e ↦ rw e (elim (Bool-cases (may_sign_in (find (is_user user_id) db.users))) [
        | inr f ↦ rw f good
        | inl f ↦ rw f (
            insert_session-IsTable (new_session user_id now credential id) credential db
              (new_session-IsSession user_id now credential id) good)
      ])
    ]

pub issue-IsTable :
    (keys : WebKeys) (user_id : Uuid) (now : Option Date) (session_token csrf_token : Text)
    (id : Uuid) (db : Db)
    → IsTable db.web_sessions
    → IsTable (issue keys user_id now session_token csrf_token id db).1.web_sessions
unfolding issue
issue-IsTable keys user_id none session_token csrf_token id db good = good
issue-IsTable keys user_id (some now) session_token csrf_token id db good =
    issue_with-IsTable user_id now id (create_session_credential keys session_token csrf_token) db
      good

All-update-Row :
    (p : WebSession → Bool) (f : WebSession → WebSession) (xs : List WebSession)
    → ((x : WebSession) → Row x xs → p x ≡ true → IsSession x → IsSession (f x))
    → All IsSession xs
    → All IsSession (update p f xs)
unfolding update
All-update-Row p f [] keep h = tt
All-update-Row p f (x ∷ xs) keep (h, hs) =
    let rest = All-update-Row p f xs (λ y r. keep y (there r)) hs in
    elim (Bool-cases (p x)) [ inl e ↦ (rw e (keep x here e h), rest) | inr e ↦ (rw e h, rest) ]

-- The only session with a digest.
session_of :
    (d : Text) (sessions : List WebSession) (s x : WebSession)
    → Unique same_digest sessions
    → find (has_digest d) sessions ≡ some s
    → Row x sessions
    → has_digest d x ≡ true
    → x ≡ s
session_of d sessions s x unique found row h =
    let other =
      find-Unique same_digest (has_digest d) sessions x
        (λ y z hy hz.
          (text_eq_iff y.token_digest z.token_digest).1
            ((text_eq_iff y.token_digest d).0 hy ∙ sym ((text_eq_iff z.token_digest d).0 hz)))
        unique row h in
    cc

-- The idle expiry slides, and stays before the absolute one.
pub touch-IsTable :
    (row : JoinedSession) (d : Text) (now : Date) (db : Db)
    → find (has_digest d) db.web_sessions ≡ some row.session
    → IsTable db.web_sessions
    → IsTable (touch row d now db).1.web_sessions
unfolding touch
touch-IsTable row d now db found good =
    let p = is_touchable row.session.id d now in
    elim (Bool-cases (leb (row.session.last_seen_at + touch_interval) now)) [
      | inr e ↦ rw e good
      | inl e ↦ rw e (elim (Bool-cases (is_some (find p db.web_sessions))) [
        | inr f ↦ rw f good
        | inl f ↦ rw f (record {
          bounds =
              All-update-Row p (touched now (next_idle row.session now)) db.web_sessions
                (λ x r t h.
                  let (_, rest) = and-true (x.id == row.session.id) _ t in
                  let (own, _) = and-true (text_eq x.token_digest d) _ rest in
                  record {
                    absolute = h.absolute;
                    idle =
                        subst
                          (λ (y : WebSession). next_idle row.session now ≤ y.absolute_expires_at)
                          (sym
                            (session_of d db.web_sessions row.session x good.digests found r own))
                          (minimum_date-le (now + idle_lifetime) row.session.absolute_expires_at);
                  })
                good.bounds;
          digests =
              Unique-update same_digest p (touched now (next_idle row.session now)) (λ x y. refl)
                (λ x y. refl) db.web_sessions good.digests;
        })
      ])
    ]
