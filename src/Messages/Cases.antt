-- ===== src/Messages/Cases.antt =====
-- The ways in which storing a message ends.
use agentmesh_mcp.Prelude.{
  ◌+◌, ◌≡◌, refl, sym, ap, ◌∙◌, ◌≢◌, ◌⊎◌, inl, inr, Bool, true, false, not, ◌||◌, Option, none,
  some, [], ◌∷◌, ◌++◌, text_eq, ◌==◌, ==_iff, text_eq_iff, find, arith, is_some, Bool-cases,
}
use mathlib.Core.Path.{subst}
use agentmesh_mcp.Schema.{Uuid, Message, Db, idempotency_conflict}
use agentmesh_mcp.Transaction.{ok, err, code, internal, continue-eq-ok}
use agentmesh_mcp.Activity.{OperationContext, record_activity}
use agentmesh_mcp.Messages.{
  SendInput, public_message, Sent, is_keyed, insert_row, insert_message, new_message,
  same_or_conflict, persist, announce, sent_event, store_message,
}

-- The row that stands for the key after a success, and what became of the table.
pub data Stored (p sender target : Uuid) (input : SendInput) (before after : Db) (m : Message)
    : Bool → Type 0 where
  fresh :
      find (is_keyed p sender input.idempotency_key) before.messages ≡ none
      → find (λ n. n.id == m.id) before.messages ≡ none
      → m.sequence ≡ before.next_sequence
      → m.project_id ≡ p
      → m.sender_agent_id ≡ sender
      → m.recipient_agent_id ≡ target
      → m.text ≡ input.text
      → m.idempotency_key ≡ input.idempotency_key
      → m.acknowledged_at ≡ none
      → after.messages ≡ before.messages ++ m ∷ []
      → after.next_sequence ≡ before.next_sequence + 1
      → Stored p sender target input before after m false
  repeated :
      find (is_keyed p sender input.idempotency_key) before.messages ≡ some m
      → m.recipient_agent_id ≡ target
      → m.text ≡ input.text
      → after.messages ≡ before.messages
      → after.next_sequence ≡ before.next_sequence
      → Stored p sender target input before after m true

module _ (p sender target : Uuid) (input : SendInput) (context : OperationContext) (id : Uuid) where
  -- The same message again.
  pub store-repeated :
      (db : Db) (m : Message)
      → sender ≢ target
      → find (is_keyed p sender input.idempotency_key) db.messages ≡ some m
      → m.recipient_agent_id ≡ target
      → m.text ≡ input.text
      → store_message p sender target input context id db
        ≡ ok (
          record { message = public_message m; deduplicated = true },
          record_activity context (sent_event p sender target input m true) db,
        )
  unfolding store_message insert_message
  store-repeated db m apart e r t =
      let other : (sender == target) ≡ false = ground arith in
      let reader : (m.recipient_agent_id == target) ≡ true = ground arith in
      let text : text_eq m.text input.text ≡ true = (text_eq_iff m.text input.text).1 t in
      rw other (rw e (rw e (rw reader (rw text refl))))

  -- A key that stands for another message is refused.
  pub store-conflict :
      (db : Db) (m : Message)
      → sender ≢ target
      → find (is_keyed p sender input.idempotency_key) db.messages ≡ some m
      → (m.recipient_agent_id ≢ target) ⊎ (m.text ≢ input.text)
      → store_message p sender target input context id db ≡ err (code idempotency_conflict)
  unfolding store_message insert_message
  store-conflict db m apart e differs =
      let other : (sender == target) ≡ false = ground arith in
      let found : (not (m.recipient_agent_id == target) || not (text_eq m.text input.text)) ≡ true =
        ground (arith, text_eq_iff m.text input.text) in
      rw other (rw e (rw e (rw found refl)))

  -- Sender and target are one agent: the check constraint throws.
  pub store_self :
      (db : Db) → sender ≡ target → store_message p sender target input context id db ≡ err internal
  unfolding store_message insert_message
  store_self db same =
      let one : (sender == target) ≡ true = (==_iff sender target).1 same in rw one refl

insert_row-eq-ok :
    (m : Message) (db db' : Db) (o : Option Message)
    → insert_row m db ≡ ok (o, db')
    → (o ≡ some m)
      × (find (λ n. n.id == m.id) db.messages ≡ none)
      × (db'.messages ≡ db.messages ++ m ∷ [])
      × (db'.next_sequence ≡ db.next_sequence + 1)
      × (db'.agents ≡ db.agents)
unfolding insert_row
insert_row-eq-ok m db db' o h = ground arith

insert_message-eq-ok :
    (m : Message) (db db' : Db) (o : Option Message)
    → insert_message m db ≡ ok (o, db')
    → (m.sender_agent_id ≢ m.recipient_agent_id)
      × (((o ≡ none) × (db' ≡ db))
          ⊎ (find (is_keyed m.project_id m.sender_agent_id m.idempotency_key) db.messages ≡ none)
            × (insert_row m db ≡ ok (o, db')))
unfolding insert_message
insert_message-eq-ok m db db' o h = (
  ground arith,
  elim (Bool-cases
      (is_some (find (is_keyed m.project_id m.sender_agent_id m.idempotency_key) db.messages))) [
        | inl e ↦ inl (ground arith)
        | inr e ↦ inr (ground arith)
      ],
)

same_or_conflict-eq-ok :
    (target : Uuid) (input : SendInput) (o : Option Message) (db db' : Db) (m : Message)
    → same_or_conflict target input o db ≡ ok (m, db')
    → (o ≡ some m) × (m.recipient_agent_id ≡ target) × (m.text ≡ input.text) × (db' ≡ db)
unfolding same_or_conflict
same_or_conflict-eq-ok target input none db db' m h = absurd (ground arith)
same_or_conflict-eq-ok target input (some x) db db' m h =
    ground (arith, text_eq_iff x.text input.text)

persist-none-eq-ok :
    (p sender target : Uuid) (input : SendInput) (db db' : Db) (m : Message) (b : Bool)
    → persist p sender target input none db ≡ ok ((m, b), db')
    → (b ≡ true)
      × (db' ≡ db)
      × (find (is_keyed p sender input.idempotency_key) db.messages ≡ some m)
      × (m.recipient_agent_id ≡ target)
      × (m.text ≡ input.text)
unfolding persist
persist-none-eq-ok p sender target input db db' m b h =
    let found = find (is_keyed p sender input.idempotency_key) db.messages in
    let (x, db1, inner, rest) = continue-eq-ok (same_or_conflict target input found db) _ h in
    let (e, r, t, same) = same_or_conflict-eq-ok target input found db db1 x inner in
    let x-eq : x ≡ m = ground arith in
    let after : db1 ≡ db' = ground arith in
    (
      ground arith,
      sym after ∙ same,
      e ∙ ap some x-eq,
      ap (λ (y : Message). y.recipient_agent_id) (sym x-eq) ∙ r,
      ap (λ (y : Message). y.text) (sym x-eq) ∙ t,
    )

persist-some-eq-ok :
    (p sender target : Uuid) (input : SendInput) (db db' : Db) (n m : Message) (b : Bool)
    → persist p sender target input (some n) db ≡ ok ((m, b), db')
    → (b ≡ false) × (db' ≡ db) × (n ≡ m)
unfolding persist
persist-some-eq-ok p sender target input db db' n m b h = ground arith

announce-eq-ok :
    (p sender target : Uuid) (input : SendInput) (context : OperationContext) (m : Message)
    (b : Bool) (db db' : Db) (sent : Sent)
    → announce p sender target input context (m, b) db ≡ ok (sent, db')
    → (sent.message ≡ public_message m)
      × (b ≡ sent.deduplicated)
      × (db'.messages ≡ db.messages)
      × (db'.next_sequence ≡ db.next_sequence)
      × (db'.agents ≡ db.agents)
unfolding announce
announce-eq-ok p sender target input context m b db db' sent h =
    (ground arith, ground arith, ground arith, ground arith, ground arith)

-- Every success stores the message, or finds it stored.
pub store_message-Stored :
    (p sender target : Uuid) (input : SendInput) (context : OperationContext) (id : Uuid)
    (db db' : Db) (sent : Sent)
    → store_message p sender target input context id db ≡ ok (sent, db')
    → (m : Message) × (sent.message ≡ public_message m)
      × (sender ≢ target)
      × (db'.agents ≡ db.agents)
      × Stored p sender target input db db' m sent.deduplicated
unfolding store_message
store_message-Stored p sender target input context id db db' sent h =
    let n = new_message p sender target input context.now id db.next_sequence in
    let (o, db1, h1, k1) = continue-eq-ok (insert_message n db) _ h in
    let (mb, db2, h2, k2) = continue-eq-ok (persist p sender target input o db1) _ k1 in
    let (shown, flag, messages, sequence, agents) =
      announce-eq-ok p sender target input context mb.0 mb.1 db2 db' sent k2 in
    let (apart, either) = insert_message-eq-ok n db db1 o h1 in
    elim either [
      | inl (missed, kept) ↦
          let (b, kept', e, r, t) =
            persist-none-eq-ok p sender target input db1 db2 mb.0 mb.1 (rw missed at h2) in
          let same : db2 ≡ db = kept' ∙ kept in
          (
            mb.0,
            shown,
            apart,
            agents ∙ ap (λ (d : Db). d.agents) same,
            subst (λ flag'. Stored p sender target input db db' mb.0 flag') (sym b ∙ flag)
                (repeated (rw kept at e) r t (messages ∙ ap (λ (d : Db). d.messages) same)
                  (sequence ∙ ap (λ (d : Db). d.next_sequence) same)),
          )
      | inr (unused, row) ↦
          let (inserted, free, added, next, agents1) = insert_row-eq-ok n db db1 o row in
          let (b, kept, same) =
            persist-some-eq-ok p sender target input db1 db2 n mb.0 mb.1 (rw inserted at h2) in
          (
            n,
            shown ∙ ap public_message (sym same),
            apart,
            agents ∙ ap (λ (d : Db). d.agents) kept ∙ agents1,
            subst (λ flag'. Stored p sender target input db db' n flag') (sym b ∙ flag)
                (fresh unused free refl refl refl refl refl refl refl
                  (messages ∙ ap (λ (d : Db). d.messages) kept ∙ added)
                  (sequence ∙ ap (λ (d : Db). d.next_sequence) kept ∙ next)),
          )
    ]
