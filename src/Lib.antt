-- ===== src/Lib.antt =====
-- AgentMesh is a server through which coding agents register, message each other, share versioned
-- facts and report progress (MCP tools), with a web control plane for the owners of projects. The
-- services are TypeScript functions that run SQL transactions on one PostgreSQL database; they
-- meet in its tables, and the agent service authenticates callers for the other MCP services.
--
-- Schema (src/db/schema.ts) has a record for a row of each table and `Db`, the tables as lists of
-- rows. Prelude has the queries on such lists, and Transaction `db.transaction`: a body is a
-- function `Db → Result C (A × Db)`, and a body that throws leaves the database as it was.
-- * Auth is src/auth (agent and project tokens) with the uuid texts and patterns of
--   src/contracts.ts. SHA-256 and HMAC are parameters (`Signer`, or an argument `sha256`).
-- * Activity is src/activity/service.ts, Audit is src/audit/service.ts.
-- * Agents is src/agents/service.ts: Authentication (authenticateAgent, and `Authenticator`, the
--   interface the other services are given), Register (registerAgent), Sync (syncAgent, listAgents).
-- * Messages is sendMessage of src/messages/service.ts, Blackboard is src/blackboard/service.ts.
-- * Projects is src/projects/service.ts.
-- * Control.Membership is src/control/membership-service.ts, Control.Projects is
--   src/control/project-service.ts with the read predicate of src/control/project-access.ts,
--   Control.Connections is src/control/connection-service.ts, Control.Operator is
--   src/control/operator-service.ts, and Control.Reading is src/control/read-service.ts.
-- * Paging is the page and the cursor that the lists of projects and users share
--   (src/admin/contracts.ts, and `createdPage` of src/control/operator-service.ts).
-- * Pulse is `recordProgress` of src/pulse/service.ts and src/pulse/resolution-service.ts, and
--   Pulse.Daily is `getDailyPulse`.
-- * WebAuth.Credential is src/web-auth/session-token.ts, WebAuth.Session is
--   src/web-auth/session-service.ts, WebAuth.Cookie is src/web-auth/oauth-cookie.ts (the cipher,
--   base64url and JSON are the parameter `CookieLibrary`), WebAuth.Identity is
--   src/web-auth/identity-service.ts and WebAuth.SignIn is src/web-auth/oauth-service.ts (the
--   GitHub client is the parameter `GitHubClient`).
-- The root of each module has the definitions, with further ones in children named for what they
-- define (Sync, Deletion, Listing, Catalogue, Daily, Messages), and its other children have the
-- theorems; Tests applies them to small databases.
--
-- Texts are lists of the UTF-16 code units of JavaScript strings, so that lengths and orders are
-- those of the code, or of bytes for a buffer; a uuid column is a number below 2^128, a date a
-- number of milliseconds since 1970, and an invalid date, where the code tests for it, is
-- `none`. Clock readings, random tokens and the ids that the database or `randomUUID` makes are
-- arguments. No function of the code runs on fuel: every loop is recursion on a list. Only
-- `Paging.Laws.follow`, a client that follows the cursors of a list, is given a number of pages;
-- the theorems on it show that as many pages as there are rows are enough.
--
-- Not modelled: concurrent transactions (row locks make those of one project wait for each other),
-- the foreign keys (but for what the deletion of a project takes with it), a failure of the
-- insertion of an activity event, the gaps that a conflict leaves in the sequence numbers of
-- messages, and the request schemas' limits on lengths. The text of a list's cursor stands for the
-- cursor itself. `listEvents` of src/control/read-service.ts, the views of the administration, the
-- limits on rates, HTTP, the command line and the web client are not modelled either.
mod Prelude
pub mod Schema
pub mod Transaction
pub mod Auth
pub mod Activity
pub mod Audit
pub mod Agents
pub mod Messages
pub mod Blackboard
pub mod Control
pub mod Pulse
pub mod WebAuth
pub mod Paging
pub mod Projects
mod Tests
