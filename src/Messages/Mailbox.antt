-- ===== src/Messages/Mailbox.antt =====
-- The state of the mailbox that sending and polling keep.
use agentmesh_mcp.Prelude.{
  ℕ, ◌+◌, ◌<◌, ◌≡◌, refl, sym, ◌∙◌, ◌≢◌, Bool, false, none, List, [], ◌∷◌, ◌++◌, ◌==◌, ltb, find,
  find-none_iff, update, arith, All, All-append, All-update, All-imp, Unique, Unique-insert,
  Unique-update,
}
use agentmesh_mcp.Schema.{Uuid, Date, Message, Db}
use agentmesh_mcp.Transaction.{ok}
use agentmesh_mcp.Activity.{OperationContext}
use agentmesh_mcp.Agents.Authentication.{Authenticator}
use agentmesh_mcp.Agents.Sync.{PollInput, Synced, acknowledge, is_due, sync_agent}
use agentmesh_mcp.Agents.Sync.Inbox.{sync_agent-IsSynced}
use agentmesh_mcp.Messages.{SendInput, Sent, is_keyed, send_message}
use agentmesh_mcp.Messages.Cases.{Stored, fresh, repeated}
use agentmesh_mcp.Messages.Laws.{send_message-Stored}

abbrev pub same_key : Message → Message → Bool
same_key m n = is_keyed m.project_id m.sender_agent_id m.idempotency_key n

abbrev pub same_message : Message → Message → Bool
same_message m n = n.id == m.id

-- A later row with a sequence number that is not greater.
abbrev pub out_of_order : Message → Message → Bool
out_of_order m n = ltb n.sequence (m.sequence + 1)

pub record IsMailbox (messages : List Message) (next : ℕ) : Type 0 where
  pub keys : Unique same_key messages
  pub ids : Unique same_message messages
  pub ordered : Unique out_of_order messages
  pub numbered : All (λ m. m.sequence < next) messages
  pub apart : All (λ m. m.sender_agent_id ≢ m.recipient_agent_id) messages

same_key_symm : (m n : Message) → same_key m n ≡ false → same_key n m ≡ false
same_key_symm m n h = ground arith

same_message_symm : (m n : Message) → (n.id == m.id) ≡ false → (m.id == n.id) ≡ false
same_message_symm m n h = ground arith

module _ {messages : List Message} {next : ℕ} (box : IsMailbox messages next) where
  insert-IsMailbox :
      (m : Message)
      → find (same_key m) messages ≡ none
      → find (λ n. n.id == m.id) messages ≡ none
      → m.sequence ≡ next
      → m.sender_agent_id ≢ m.recipient_agent_id
      → IsMailbox (messages ++ m ∷ []) (next + 1)
  insert-IsMailbox m unused free last apart = record {
    keys =
        Unique-insert same_key messages m
          (All-imp _ _ messages (λ n. same_key_symm m n)
            ((find-none_iff (same_key m) messages).0 unused))
          box.keys;
    ids =
        Unique-insert same_message messages m
          (All-imp _ _ messages (λ n. same_message_symm m n)
            ((find-none_iff (λ n. n.id == m.id) messages).0 free))
          box.ids;
    ordered =
        Unique-insert out_of_order messages m
          (All-imp (λ n. n.sequence < next) _ messages (λ n h. ground arith) box.numbered)
          box.ordered;
    numbered =
        All-append (λ n. n.sequence < next + 1) messages (m ∷ [])
          (All-imp (λ n. n.sequence < next) _ messages (λ n h. omega arith) box.numbered)
          (omega arith, tt);
    apart =
        All-append (λ n. n.sender_agent_id ≢ n.recipient_agent_id) messages (m ∷ []) box.apart
          (apart, tt);
  }

  acknowledge-IsMailbox :
      (p : Message → Bool) (now : Date) → IsMailbox (update p (acknowledge now) messages) next
  unfolding acknowledge
  acknowledge-IsMailbox p now = record {
    keys = Unique-update same_key p (acknowledge now) (λ x y. refl) (λ x y. refl) messages box.keys;
    ids =
        Unique-update same_message p (acknowledge now) (λ x y. refl) (λ x y. refl) messages box.ids;
    ordered =
        Unique-update out_of_order p (acknowledge now) (λ x y. refl) (λ x y. refl) messages
          box.ordered;
    numbered =
        All-update (λ m. m.sequence < next) p (acknowledge now) messages (λ m _ h. h) box.numbered;
    apart =
        All-update (λ m. m.sender_agent_id ≢ m.recipient_agent_id) p (acknowledge now) messages
          (λ m _ h. h) box.apart;
  }

Stored-IsMailbox :
    {p sender target : Uuid} {input : SendInput} {db db' : Db} {m : Message} {b : Bool}
    → Stored p sender target input db db' m b
    → sender ≢ target
    → IsMailbox db.messages db.next_sequence
    → IsMailbox db'.messages db'.next_sequence
Stored-IsMailbox {m} (fresh unused free sequence mp ms mr mt mk ma added next) apart box =
    rw (added, next)
      (insert-IsMailbox box m (rw (mp, ms, mk) unused) free sequence (λ e. apart (sym ms ∙ e ∙ mr)))
Stored-IsMailbox (repeated found r t kept next) apart box = rw (kept, next) box

-- A message that is sent keeps the mailbox in order: keys and ids stay unique, sequence numbers
-- rise from row to row and stay below the next one, and nobody writes to themselves.
pub send_message-IsMailbox :
    (auth : Authenticator) (p : Uuid) (input : SendInput) (context : OperationContext) (id : Uuid)
    (db db' : Db) (sent : Sent)
    → send_message auth p input context id db ≡ (ok sent, db')
    → IsMailbox db.messages db.next_sequence
    → IsMailbox db'.messages db'.next_sequence
send_message-IsMailbox auth p input context id db db' sent h box =
    let (sender, target, m, w, shown, apart, agents, row) =
      send_message-Stored auth p input context id db db' sent h in
    Stored-IsMailbox row apart box

-- A successful poll keeps the mailbox in order in the same way.
pub sync_agent-IsMailbox :
    (auth : Authenticator) (p : Uuid) (input : PollInput) (context : OperationContext) (db db' : Db)
    (r : Synced) (next : ℕ)
    → sync_agent auth p input context db ≡ (ok r, db')
    → IsMailbox db.messages next
    → IsMailbox db'.messages next
sync_agent-IsMailbox auth p input context db db' r next h box =
    let (caller, known, synced) = sync_agent-IsSynced auth p input context db db' r h in
    rw synced.acknowledged
      (acknowledge-IsMailbox box (is_due p caller.id input.acknowledge) context.now)
