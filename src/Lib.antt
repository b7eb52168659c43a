-- ===== src/Lib.antt =====
-- A verification library for the Locus browser.
--
-- The program is a browser with a sync service. The parts that are modelled:
--
-- - `Sync.Memory`: the sync service's repository, `MemorySyncRepository` of
--   services/sync/src/memoryRepository.ts, with the values of services/sync/src/models.ts in
--   `Sync.Models`. `Sync.Memory.State` holds its private maps as one record, `Repository`; a `Map` is a
--   `Dict` of `Base.Dicts`, the list of its entries in the order in which their keys were first set.
--   A method that throws, or that returns a value and writes, is an `Exec Repository Error` of
--   `Base.Effects`: what it wrote before it throws stays written. The methods stand in `Records`
--   (push, pull, deleteCloudData), `Devices` (tokens, enrollments), `Passkeys`, `Keys` (account keys)
--   and `Account` (cleanupExpired, deleteAccount), each under the method's name in snake case.
--   `Invariant` says what holds of every state, and `Reach` puts the methods together as steps.
-- - `Sync.Client`: the loop `#pullAllRecords` of apps/desktop/src/main/SyncAccountManager.ts, which
--   reads the records of an account page by page, against `pull` of the repository.
-- - `Tabs.Access`: apps/desktop/src/main/TabAccessRegistry.ts, the tabs shared with agents.
-- - `Tabs.Sleeping`: apps/desktop/src/main/TabSleepingPolicy.ts.
-- - `Recording`: apps/desktop/src/main/RecordingCoordinator.ts and `canAcceptRecordedMedia` of
--   apps/desktop/src/shared/recordingPolicy.ts. `Recording.State` holds the private fields, with what
--   the recorder window is sent; `Messages` is `handleRendererMessage`, and `Control` the methods, cut
--   at their `await`s, so that any order of the parts of several calls is a sequence of steps. The
--   database, the transcripts and the video file's saving are left out.
-- - `Sync.Clock`: `mergePerField` of packages/sync-crypto/src/clock.ts.
-- - `Sync.Blobs`: `OpaqueRecordStorage` of services/sync/src/opaqueRecordStorage.ts over a blob store that
--   is a parameter.
-- - `Policy`: BrowserCommandPolicy.ts, TrustedSurfaceRecovery.ts, WorkAttachmentPolicy.ts and
--   WorkProviderLifecycle.ts of apps/desktop/src/main.
-- - `Extensions`: packages/extensions/src. `Texts` has the regular expressions and path checks, `Paths` and
--   `Hosts` the shapes of the paths and of the host patterns, `Code` the
--   scan of `validateExtensionFile`, `Reading` what the schemas are made of, `ManifestSchema` and
--   `ManifestCheck` `validateManifest`, `Archive` `verifyLocusx` over a `Toolkit` of the libraries for
--   archives, JSON and cryptography, `Expansion` `permissionExpansion` and `Revocation` the revocations of
--   gallery.ts.
-- - `Gallery.RateLimit`: the `onRequest` hook of services/gallery/src/app.ts, with the time and the address
--   of a request as arguments.
-- - `Surfaces`: apps/desktop/src/main/SurfaceStatePublisher.ts, with the microtask queue as a field.
-- - `Sync.Requests`: the HTTP handler of services/sync/src/requestHandler.ts, requestSupport.ts and
--   requestContract.ts over the repository of `Sync.Memory`. `Values` has requests, responses and the
--   `Platform`: the schema library's primitives, the hash of tokens, the passkey toolkit and the codecs
--   are its fields, so that nothing is said of code that is not in the repository. `Draws` holds the
--   random values and clock readings of one request in the order of the calls. `Checks` and `Schemas`
--   are the schemas, `Records`, `Keys`, `Ceremonies`, `Verification` and `Enrollments` the routes, and
--   `Handler` the gate, the order of the routes and the `catch`. `Rules` is the interface between a
--   property of the repository and the handler: `Keeping` shows once that a request keeps whatever
--   satisfies it, and `Sound` and `Isolation` fill it.
-- - `Sync.Manager`: apps/desktop/src/main/SyncAccountManager.ts and SyncKeyVerifier.ts. The methods run one at
--   a time; the service answers as a function of all the requests sent before (`SyncService`), and
--   the vault, the cryptography and the URL parser are a `Device`. `Ceremony` has registration and
--   sign-in, `Enrollment` the enrollment by another device and the refresh of the key, `Entry` the
--   methods that start or end a connection, `Verifier` the check of a key.
--   `Sync.Client.Pulling` is the loop of `#runSync` that pulls, whose decryption is a test of a record.
-- - `Base`: the names that all modules share: Boolean tests, list lemmas, texts joined with a colon,
--   maps, sets, stable sorting, and the monad of methods that may throw.
-- - The modules called `Tests` run the definitions on concrete values.
--
-- Conventions. Numbers are natural numbers, times are milliseconds; the source's `now - x < y` is
-- written without a number below zero. `Date.now()` is read once in each call and is the argument
-- `now`. Account identifiers are UUIDs, which have no colon: where a key such as
-- `accountId:deviceId` has to tell accounts apart, this is the hypothesis `NoColon`. The order of
-- texts (`>=` on clocks) compares code points; clocks are ASCII, where this is the source's order.
-- `sort` is a stable insertion sort. An object that the source changes in place while a map holds
-- it is a `set` under its key. The loop of `#pullAllRecords` is recursion on the rounds that are
-- left, 100 as in the source.
--
-- Not modelled: the Postgres repository (SQL), cryptography, file and network access, Electron's
-- windows and sessions, and the user interface.
pub mod Base
pub mod Sync
pub mod Tabs
pub mod Recording
pub mod Policy
pub mod Extensions
pub mod Gallery
pub mod Surfaces
