-- ===== src/Agents/Register/Keyed.antt =====
-- The keys of the agents table under registration.
use agentmesh_mcp.Prelude.{
  ◌≡◌, refl, sym, ap, ◌∙◌, inl, inr, Bool, true, false, Option, some, List, Text, ==_refl,
  text_eq_iff, text_eq_refl, find, find-none_iff, find-Row, find-true, find-Unique, some_inj,
  find-append, find-update_found, update, arith, Unique, Unique-insert, Unique-update, All-imp,
  texts_eq_refl,
}
use agentmesh_mcp.Schema.{Uuid, Date, Agent, Db}
use agentmesh_mcp.Transaction.{ok}
use agentmesh_mcp.Activity.{OperationContext}
use agentmesh_mcp.Agents.Presence.{RegisterInput, same_profile}
use agentmesh_mcp.Agents.Authentication.{is_agent, same_id}
use agentmesh_mcp.Agents.Register.{is_registration, seen, register_body, fresh_agent}
use agentmesh_mcp.Agents.Register.Cases.{Inserted, Reused, register_body-cases}

-- Two agents that stand for one session of one project.
abbrev pub same_registration : Agent → Agent → Bool
same_registration a b = is_registration a.project_id a.registration_digest b

-- The primary key and the unique constraint of the table.
pub record IsKeyed (agents : List Agent) : Type 0 where
  pub ids : Unique same_id agents
  pub registrations : Unique same_registration agents

same_id_symm : (a b : Agent) → same_id a b ≡ false → same_id b a ≡ false
same_id_symm a b h = ground arith

same_registration_symm :
    (a b : Agent) → same_registration a b ≡ false → same_registration b a ≡ false
same_registration_symm a b h = ground (
  arith,
  text_eq_iff a.registration_digest b.registration_digest,
  text_eq_iff b.registration_digest a.registration_digest,
)

Inserted-IsKeyed :
    {fresh agent : Agent} {before after : List Agent}
    → Inserted fresh agent before after
    → IsKeyed before
    → IsKeyed after
Inserted-IsKeyed {fresh} {before} i k = rw i.appended (record {
  ids =
      Unique-insert same_id before fresh
        (All-imp _ _ before (λ x. same_id_symm fresh x)
          ((find-none_iff (same_id fresh) before).0 i.unused))
        k.ids;
  registrations =
      Unique-insert same_registration before fresh
        (All-imp _ _ before (λ x. same_registration_symm fresh x)
          ((find-none_iff (same_registration fresh) before).0 i.unregistered))
        k.registrations;
})

pub seen-IsKeyed :
    (p : Agent → Bool) (now : Date) (agents : List Agent)
    → IsKeyed agents
    → IsKeyed (update p (seen now) agents)
unfolding seen
seen-IsKeyed p now agents k = record {
  ids = Unique-update same_id p (seen now) (λ x y. refl) (λ x y. refl) agents k.ids;
  registrations =
      Unique-update same_registration p (seen now) (λ x y. refl) (λ x y. refl) agents
        k.registrations;
}

-- The registration transaction keeps both keys.
pub register_body-IsKeyed :
    (context : OperationContext) (input : RegisterInput) (capabilities : List Text)
    (fresh agent : Agent) (db db' : Db)
    → register_body context input capabilities fresh db ≡ ok (agent, db')
    → IsKeyed db.agents
    → IsKeyed db'.agents
register_body-IsKeyed context input capabilities fresh agent db db' h k =
    elim (register_body-cases context input capabilities fresh agent db db' h) [
      | inl i ↦ Inserted-IsKeyed i k
      | inr r ↦ rw r.touched (seen-IsKeyed _ fresh.last_seen_at db.agents k)
    ]

-- What the table says of the session after its registration.
pub record IsRegistered (input : RegisterInput) (capabilities : List Text) (p : Uuid)
    (digest : Text) (agents : List Agent) (agent : Agent) : Type 0 where
  pub found : find (is_registration p digest) agents ≡ some agent
  pub profile : same_profile agent input capabilities ≡ true

pub Inserted-IsRegistered :
    (p : Uuid) (token_id : Option Uuid) (digest : Text) (input : RegisterInput)
    (capabilities : List Text) (now : Date) (id : Uuid) (agent : Agent) (before after : List Agent)
    → Inserted (fresh_agent p token_id digest input capabilities now id) agent before after
    → IsRegistered input capabilities p digest after agent
unfolding same_profile
Inserted-IsRegistered p token_id digest input capabilities now id agent before after i =
    rw (← i.is_fresh) (
      rw i.appended (record {
        found =
            rw find-append
              (rw i.unregistered (unfold find in ground (arith, text_eq_refl digest, ==_refl p)));
        profile =
            ground (
              arith,
              text_eq_refl input.name,
              text_eq_refl input.client,
              texts_eq_refl capabilities,
            );
      }))

module _ {input : RegisterInput} {capabilities : List Text} {fresh agent : Agent}
    {before after : List Agent} (r : Reused input capabilities fresh agent before after) where
  existing_project : r.existing.project_id ≡ fresh.project_id
  existing_project = ground (
    arith,
    find-true (is_registration fresh.project_id fresh.registration_digest) before r.existing
        r.registered,
  )

  existing-find :
      IsKeyed before → find (is_agent fresh.project_id r.existing.id) before ≡ some r.existing
  existing-find k =
      find-Unique same_id (is_agent fresh.project_id r.existing.id) before r.existing
        (λ y z hy hz. ground arith) k.ids (find-Row _ before r.existing r.registered)
        (ground (arith, existing_project, ==_refl r.existing.id, ==_refl fresh.project_id))

  is_existing : is_agent fresh.project_id r.existing.id r.existing ≡ true
  is_existing = ground (arith, existing_project, ==_refl r.existing.id, ==_refl fresh.project_id)

  -- The row that is returned is the earlier one, seen now.
  pub Reused-seen : IsKeyed before → agent ≡ seen fresh.last_seen_at r.existing
  Reused-seen k = some_inj (
      sym r.refreshed
      ∙ ap (find (is_agent fresh.project_id r.existing.id)) r.touched
      ∙ find-update_found (is_agent fresh.project_id r.existing.id)
          (is_agent fresh.project_id r.existing.id) (seen fresh.last_seen_at) before r.existing
          (λ y. unfold seen in refl) (existing-find k) is_existing)

  pub Reused-IsRegistered :
      IsKeyed before
      → IsRegistered input capabilities fresh.project_id fresh.registration_digest after agent
  unfolding same_profile
  Reused-IsRegistered k = record {
    found = rw r.touched (
        rw (Reused-seen k) (
          find-update_found (is_registration fresh.project_id fresh.registration_digest)
            (is_agent fresh.project_id r.existing.id) (seen fresh.last_seen_at) before r.existing
            (λ y. unfold seen in refl) r.registered is_existing));
    profile = rw (Reused-seen k) (unfold seen in r.profile);
  }
