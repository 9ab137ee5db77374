-- ===== src/Lib.antt =====
-- The permission core of the Octo Docs backend: who may read and write a document, how roles are
-- given by invites and forward grants, how a live collaboration socket is admitted and cut off, and
-- some utilities whose failure would be a security failure.
--
-- The program and the files that model it:
-- - Permission/Role, Share, Name, Resolve, Epoch: src/permission/role.ts, shareScope.ts,
--   documentName.ts, resolveRole.ts, resolveEffectiveRole.ts, epoch.ts, with src/api/guard.ts and the
--   TTL cache of src/util/singleflight.ts. A request comes to `require_doc_role`, which reads the
--   document's row, the member rows and the share settings.
-- - Db/Meta, Member, Invite: the rows and queries of src/db/repos/docMetaRepo.ts, docMemberRepo.ts,
--   docInviteRepo.ts and docInviteRedemptionRepo.ts. A table is the list of its rows, and `Tables`
--   holds the four tables. The state of every operation is such a record, passed explicitly.
-- - Invite/Decision, Accept: src/api/services/acceptDecision.ts and acceptInvite.ts. `Outcome` is what
--   the transaction leaves: tables, pending publication and answer.
-- - Grant: src/api/services/grantForward.ts.
-- - Db/Request, Access/Bots, Access/Routes: src/db/repos/docAccessRequestRepo.ts,
--   src/api/services/grantRequestWithBots.ts and src/api/routes/accessRequests.ts. A submission writes a
--   request under a new id, a decision moves it once, and an approval makes forward grants for the
--   requester and the bots. `Fault` says where the database breaks a grant off.
-- - Collab/Token, Issue, Handshake, Socket: src/auth/collabToken.ts and issueCollabToken.ts,
--   src/collab/authenticate.ts, and the watermark and write recheck of src/collab/server.ts. A token
--   is issued over REST, verified in the handshake, and rechecked on messages once the epoch of the
--   document has advanced; invites and grants advance it.
-- - Slots: src/import/docx/importQueue.ts, whose code src/whiteboard/boardExportQueue.ts repeats.
-- - Net/Address, Guard: src/util/ssrfGuard.ts.
-- - Net/Fetch: src/util/ogFetch.ts up to the HTML that it parses. The loop is recursion on the rounds
--   that are left, one more than the redirects allowed.
-- - Collab/Snapshot: src/collab/autoSnapshot.ts. `Node` holds the map of states and the frames; `Event`
--   is a store, the firing of a pending timer, or an unload. A live document of Yjs is a handle; what it
--   encodes to when a frame is written is an argument of the event.
-- - Board/Fields, Normalize: src/whiteboard/schema/normalize.ts and constants.ts. An element is the list
--   of its fields, and the normalisation is a list of corrections of single fields.
-- - Board/Repair: the repair plan of src/whiteboard/repair.ts. A board is the list of its elements by id
--   with the ids of its files. The plan has no list of files to delete: the code leaves that one empty.
-- - Sheet/Key, Page: src/api/services/sheetPagination.ts. A cell map is the list of its entries. `walk`
--   is the client that follows the pages; its fuel is the number of pages that it may ask for.
-- - BotUids: src/util/botUids.ts.
-- - Migrate, Migrate/Script: src/db/migrate.ts.
-- - Base: shared names, tests, lists, texts and results. Examples: concrete data, with a run of each
--   result below.
--
-- Conventions. Numbers are natural numbers; times are milliseconds. A text is the list of its UTF-16
-- code units. Texts of rows compare by their codes, as under a binary collation. A transaction is
-- one step: the row locks of the code are taken as they are meant, so two accepts of an invite do
-- not interleave. A handler of a route or of a snapshot hook runs to its end before the next one;
-- what its awaits return is an argument. Every loop of the code is structural recursion without
-- fuel. MySQL is modelled by the queries that the repositories send, with the assignments of an
-- UPDATE made from left to right.
--
-- What is outside stands as a parameter: the identity service (tokens, names, space membership), the
-- JWT library (a token is its payload), Redis replies, `isIP` and `dns.lookup` of Node,
-- `JSON.parse`, the test and the key generator of the fractional-indexing library, what Yjs
-- encodes a document to, the URL class,
-- the network and the clock of a fetch, whether MySQL grants a lock or a statement succeeds, and
-- what the MySQL driver reports for a row that keeps its values.
--
-- Not modelled: the CRDT documents and their persistence, the editor schema, the application of a
-- whiteboard repair, import and export, comments, versions, search, storage, notifications, slide
-- decks, configuration and the HTTP routes around the services, but for those of access requests.
pub mod Base
pub mod Permission
pub mod Db
pub mod Invite
pub mod Grant
pub mod Collab
pub mod Slots
pub mod Net
pub mod BotUids
pub mod Migrate
pub mod Examples
pub mod Sheet
pub mod Access
pub mod Board
