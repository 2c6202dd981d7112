-- ===== src/Lib.antt =====
-- Personal Context keeps records (a dated note with HTML, figures and data files) in a database on
-- each device and in the cloud, and a sync brings both sides together. This library models the sync
-- as a whole, the local database that it runs on, and the rules on texts, keys, notes and listings
-- that the rest relies on.
--
-- How the parts interact. A sync (Service.Sync of cli/internal/sync/service.go) begins a session,
-- which gives the cursor, pushes the changed records and chats, pulls them, updates the version
-- object, completes the session and releases its lock. A pass copies the registries, looks at the
-- records of its source that were updated since the cursor (FilterRecordsUpdatedSince), loads the
-- bundle of each record on both sides, asks ResolveBundle which side wins, and applies the source's
-- bundle if it does: applyRecord copies the record, and PlanFigureReconciliation and
-- PlanDataFileReconciliation give the creates, updates and deletes for the child rows, which the
-- repositories carry out, with the files and objects uploaded, downloaded and removed around them.
-- If neither side wins, sourceBundleCanRepairTargetChildren says whether the bundle is applied all
-- the same.
--
-- Files.
--   Base             notation, equality, results, lists over the native numbers
--   Text, Time       Go strings and times, as far as the program uses them
--   SyncEngine       cli/internal/syncengine/resolve.go (ResolveRecordWinner,
--                    FilterRecordsUpdatedSince, FigureMapByFilename, DataFileMapByFilename)
--   Sync.Children    cli/internal/sync/conflict.go: what the plans for figures and for data files
--                    differ in
--   Sync.Plan        conflict.go: the two plans; Spec and Exact say what they hold, Settle what an
--                    update leaves to be planned
--   Sync.Bundle      conflict.go: ResolveBundle and the test for a repair; Applied has what
--                    applyRecord of sync/service.go makes of an existing record
--   Sync.Service     applyRecord of cli/internal/sync/service.go on the local database
--   Sync.Outside     the interfaces of service.go to the object store, the files and the session
--   Sync.Run         a run: a state, and a result or the first error; Keeps has what a run leaves
--   Sync.World       the two databases and what is outside, as the state of a run
--   Sync.Laws        what a sync relies on of a repository
--   Sync.Files       service.go: uploads, downloads, the write of a file and its removal
--   Sync.Apply       service.go: applyBundleToCloud and applyBundleToLocal
--   Sync.Pass        service.go: syncRegistries and syncChangedRecords; Grows and Covers have what a
--                    pass does to the records of its target
--   Sync.ChatPass    service.go: syncChangedChatsDirected
--   Sync.Cycle       service.go: Sync; Sound, Sides, Grows and Covers prove what it brings about
--   Sync.LocalDatabase  the laws hold of the local database
--   Repository       cli/internal/repository: types.go, errors.go, asset_key.go
--     Columns        the CHECK constraints of the table of records
--     Figures        sqlite/repository.go: the table of figures, with the constraints of
--                    cli/internal/sqlite/sqlite_schema.sql
--     DataFiles      the same of the table of data files
--     Records        the same of the table of records; Written has the row that a write leaves, column
--                    by column, Reachable the sequences of writes, Trash soft deletion, restoration
--                    and the purge
--     Registries     the tables of projects and devices, with their import (Import)
--     ProjectPaths   sqlite/chat.go: the table of project paths
--     Chats          types.go: chat sessions and their items
--     Interface      repository.go: the operations that a sync calls
--     Database       the tables as one database, the triggers that count its version, and its
--                    implementation of the interface
--     Replacement    ReplaceRecordChildren of sqlite/repository.go on that database
--     Replace        the check of types.go on the replacement of a record with its children
--     RecordFilter   listRecordsPredicateSQL of sqlite/repository.go, and recordMatchesFilter and the
--                    filter options of cli/internal/cli/records.go; Listing has ListRecords and
--                    CountRecords
--   Config           cli/internal/config: Config.Mode, ValidateGCRetentionDays and GCRetention
--   Notes            cli/internal/notes/normalize.go
--   ListPage         cli/internal/listpage/listpage.go, with the sort and the paging of
--                    cli/internal/cli/records.go and cli/internal/serve/server.go
--   Reorder          cli/internal/serve/server.go: computeFractionalIndex, the key of a record that
--                    is moved within its day
--   Serve            server.go: isValidRecordID, isValidGitHash and isValidFilename
--   Tests            runs on concrete data, and the examples of the theorems
--
-- Correspondence. Functions have the names of the source in lower case. A pointer is an Option, an
-- error is the constructor of an error type for each message or sentinel, a slice is a list, and a
-- Go map is a list of entries whose latest entry counts. A database table is a list of rows with
-- the id that it gives out next. PlanFigureReconciliation and PlanDataFileReconciliation are one
-- definition over a record of what they differ in, and so are the two map functions and the two
-- superset tests. The functions on projects and those on devices are one text, and one definition.
-- A function of service.go that returns an error is a run: it threads the state of both databases
-- and of what is outside them, and stops at the first error. The objects, files and sessions are
-- parameters, whose calls return whatever they like. An UPDATE of the local database that leaves
-- updated_at as it was sets it to the present, as the triggers of the schema do.
--
-- Choices. A text is the list of its code points. A time is the number of nanoseconds since Go's
-- zero time, and the ids of rows and the sizes of files are natural numbers. How a database rounds
-- the times that it stores is a parameter of Sync.Bundle.Applied, with the hypothesis that it
-- keeps the millisecond; the local database cuts them to it. Dates parse by a parameter for
-- time.Parse, and fracdex.KeyBetween, which is not in the repository, is a parameter of Reorder. A
-- client that takes page after page has fuel for one page more than there are records, which is
-- proved to be enough.
--
-- GLOB and length() of SQLite read a text as far as its first NUL, and so do the CHECK constraints of
-- the tables here; the comparisons of keys read the whole text.
--
-- A run of the sync takes the clock of each database as standing still, its context is not
-- cancelled, and the labels of its errors are left out. What a full-text search matches, and in
-- which order, is a parameter. That a sync loses nothing assumes that both databases keep the laws
-- of Sync.Laws, which is proved of the local one.
--
-- Not modelled: the base64 and JSON text of a cursor, the full-text search, the file system, the
-- object store, SQL text, the cloud database, the lock and the cursor file of a session, the tables
-- of chats and their import, git snapshots, the command line and the web application.
pub mod Base
pub mod Text
pub mod Time
pub mod Repository
pub mod SyncEngine
pub mod Sync
pub mod Notes
pub mod Config
pub mod ListPage
pub mod Reorder
pub mod Serve
mod Tests
