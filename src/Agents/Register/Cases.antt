-- ===== src/Agents/Register/Cases.antt =====
-- The two ways in which the registration transaction succeeds.
use agentmesh_mcp.Prelude.{
  ◌≡◌, refl, ◌⊎◌, inl, inr, true, Option, none, some, List, [], ◌∷◌, ◌++◌, Text, find, update,
  arith,
}
use mathlib.Core.Path.{subst₂}
use agentmesh_mcp.Schema.{Agent, Db}
use agentmesh_mcp.Transaction.{ok, continue-eq-ok}
use agentmesh_mcp.Activity.{OperationContext}
use agentmesh_mcp.Agents.Presence.{RegisterInput, same_profile}
use agentmesh_mcp.Agents.Authentication.{is_agent, same_id}
use agentmesh_mcp.Agents.Register.{
  is_registration, seen, insert_agent, reuse, insert_or_reuse, register_body,
}

-- A new row.
pub record Inserted (fresh agent : Agent) (before after : List Agent) : Type 0 where
  pub unregistered : find (is_registration fresh.project_id fresh.registration_digest) before ≡ none
  pub unused : find (same_id fresh) before ≡ none
  pub is_fresh : fresh ≡ agent
  pub appended : after ≡ before ++ fresh ∷ []

-- The row of an earlier registration with the same profile.
pub record Reused (input : RegisterInput) (capabilities : List Text) (fresh agent : Agent)
    (before after : List Agent) : Type 0 where
  pub existing : Agent
  pub registered :
      find (is_registration fresh.project_id fresh.registration_digest) before ≡ some existing
  pub profile : same_profile existing input capabilities ≡ true
  pub touched :
      after ≡ update (is_agent fresh.project_id existing.id) (seen fresh.last_seen_at) before
  pub refreshed : find (is_agent fresh.project_id existing.id) after ≡ some agent

module _ (context : OperationContext) (input : RegisterInput) (capabilities : List Text)
    (fresh agent : Agent) (db db' : Db) where
  reuse-Reused :
      (existing : Agent)
      → reuse input capabilities fresh existing db ≡ ok (agent, db')
      → find (is_registration fresh.project_id fresh.registration_digest) db.agents ≡ some existing
      → Reused input capabilities fresh agent db.agents db'.agents
  unfolding reuse
  reuse-Reused existing h e = record {
    existing = existing;
    registered = e;
    profile = ground arith;
    touched = ground arith;
    refreshed = ground arith;
  }

  insert_agent-Inserted :
      insert_agent fresh db ≡ ok (agent, db')
      → find (is_registration fresh.project_id fresh.registration_digest) db.agents ≡ none
      → Inserted fresh agent db.agents db'.agents
  unfolding insert_agent
  insert_agent-Inserted h e = record {
    unregistered = e;
    unused = ground arith;
    is_fresh = ground arith;
    appended = ground arith;
  }

  insert_or_reuse-cases :
      (found : Option Agent)
      → insert_or_reuse input capabilities fresh found db ≡ ok (agent, db')
      → find (is_registration fresh.project_id fresh.registration_digest) db.agents ≡ found
      → Inserted fresh agent db.agents db'.agents
        ⊎ Reused input capabilities fresh agent db.agents db'.agents
  unfolding insert_or_reuse
  insert_or_reuse-cases none h e = inl (insert_agent-Inserted h e)
  insert_or_reuse-cases (some existing) h e = inr (reuse-Reused existing h e)

-- Every success of the transaction is one of the two.
pub register_body-cases :
    (context : OperationContext) (input : RegisterInput) (capabilities : List Text)
    (fresh agent : Agent) (db db' : Db)
    → register_body context input capabilities fresh db ≡ ok (agent, db')
    → Inserted fresh agent db.agents db'.agents
      ⊎ Reused input capabilities fresh agent db.agents db'.agents
unfolding register_body
register_body-cases context input capabilities fresh agent db db' h =
    let (a, db1, inner, rest) =
      continue-eq-ok
        (insert_or_reuse input capabilities fresh
          (find (is_registration fresh.project_id fresh.registration_digest) db.agents) db)
        _ h in
    let same : a ≡ agent = ground arith in
    let agents : db1.agents ≡ db'.agents = ground arith in
    subst₂ (λ x l. Inserted fresh x db.agents l ⊎ Reused input capabilities fresh x db.agents l)
      same agents (insert_or_reuse-cases context input capabilities fresh a db db1 _ inner refl)
