-- ===== src/Lib.antt =====
-- The Aliyun Drive plugin for tdrive copies files from a cloud account into tdrive, within a daily quota
-- and a schedule. An operator writes a settings document; a scan of the cloud queues rows; a scheduler
-- claims rows, one transfer each, and every transfer downloads, uploads and ends in one of a few
-- ways; the operator retries, cancels and clears rows. This library models the settings document, the
-- engine's core, which shares one state under one mutex, the transfer pipeline, and the resumable
-- download that it stages files with.
--
-- Settings (internal/settings/settings.go): the document's records in Settings.antt, and in
-- Settings/ the clock texts (`checkClock`, `minutesOfDay`) in Clock, the schedule (`Open`, `NextOpen`)
-- in Window, the quota's period (`PeriodStart`, `NextReset`, `Day`) in Period, the retry policy
-- (`Backoff`, `Retry.normalize`) in Backoff, path texts (`CleanCloudPath`, `checkPathText`) in Paths, and
-- `Normalize` in Normalize. A location's calendar is a parameter, in Calendar, whose laws are those of
-- a location without shifts of its clock; `filepath.IsAbs`, `strings.ToLower` and the compilation of
-- patterns are a parameter, `Platform`.
--
-- Engine (internal/sync): the queue's rows (item.go) in Sync/Item, the state under the mutex and the
-- small writes to it (engine.go) in Sync/Engine, `takeNextWithRun`, `quotaAllowsLocked` and `rollQuota`
-- in Sync/Claim, `trimHistoryLocked` in Sync/History, `requeue` (transfer.go), `fail` and `complete` in
-- Sync/Outcome, `watchItem` in Sync/Runs, `Retry`, `Cancel`'s locked part, `ClearFinished` and `abort` in
-- Sync/Actions, `reserveStageRoom` and the transfer slots in Sync/Room, and what a scan queues
-- (`consider`, `inspectLocked` of scan.go) in Sync/Scan, with its names and paths (`unstorableName`,
-- `mapPath`) in Sync/Names and the walk of the cloud's directories (`walkCloudDir`, `scanChosen`) in
-- Sync/Walk, and the ticked files (`scanChosenFiles`) in Sync/Ticked. `Load`'s locked part is in Sync/Start, `applySettings`, `retryPendingCleanups`, `tick` and
-- the workers of `dispatch` in Sync/Reload. Sync/Budget runs the locked parts that its steps list in every order,
-- as a step relation on the engine and the reservations that its transfers hold.
--
-- Transfer pipeline (internal/sync/transfer.go): `transfer` in Sync/Transfer, as it composes `stage` in
-- Sync/Staging, `upload` with `sendSegments` and `commit` in Sync/Upload (`parseMissingSegments` in
-- Sync/Upload/Missing), `uploadOwner` in Sync/Owner, and `retryLater`, `jitter` and the deferrals in
-- Sync/Retries with the ends of a transfer above. What the host, the cloud client and the context
-- answer is an argument, as a stream where a loop asks again, and so are the steps of other goroutines.
--
-- Download (internal/aliyunpan): `chunkCount` and `chunkBounds` (source_checkpoint.go) in Download/Chunks, the
-- bitmap in Download/Bitmap, the sidecar (`chunkCheckpoint`, `checkpointFile`) in Download/Checkpoint. Of
-- source_download.go, `Download` with what is done around the chunks is in Download/Fetch, the paths of
-- staged files in Download/Path, `downloadChunkWithRetry` in Download/Attempts, `downloadRange` with
-- `validateContentRange` in Download/Range, `downloadURLState` with source_url.go in Download/Link,
-- `downloadProgress` and `partialFlusher` in Download/Progress. Download/Durable runs
-- the workers of `downloadChunks`, the flusher, the disk and ends of the process as a step relation;
-- which bytes are written and which are durable is part of its state. Base64 and decimal keys are
-- parameters with the law that decoding gives back what was encoded; `fmt.Sscanf` and `ParseInt` are
-- written out, `url.Parse` and `time.Parse` are parameters. The copy of a body runs on as many rounds
-- as bytes remain, since each that goes on reads at least one; the attempts on those that are left.
-- The loops of `upload` and `commit` are bounded by `resendRounds` and `completeAttempts`, as in the source.
--
-- Cloud client (internal/aliyunpan/source_client.go, source_models.go): `requestJSON`, `refreshAccessToken` and the
-- error codes in Cloud/Request, `Drives` and the choice of a drive in Cloud/Drives, `List`, `Remove` and
-- `RemoveByID` with paths and hashes in Cloud/Listing, whose entries the walk of a scan is given. The answers of
-- HTTP and the fields of its JSON are arguments. The two loops of a request have the source's bounds; the
-- loop over pages runs on fuel, for which a marker more than the server gives is enough.
--
-- Conventions: an item pointer is the item's ID, and a write through it is a write to the queue's row
-- of that ID. What the host answers to a write or an abort is an argument, and an operation that
-- releases the mutex has one definition for each locked part. Texts are lists of code points and
-- are valid UTF-8. Sizes are unbounded integers; only durations wrap, as int64. An error message
-- is a constructor that names it. Loops are structural recursions; fuel is that of
-- `format_int`, which is more than the number has digits, that of a body's copy and that of a listing.
--
-- Not modelled: the HTTP client, login, credential files, the download limiter (which computes in floats) and
-- the legacy client (internal/aliyunpan), the loop of a scan over jobs, the walk of the staging directory, files and
-- directories but for a staged file's own, the removal of orphaned ones, the page's snapshots, the live transfer rate,
-- and the cancel functions of contexts, which a run's `interrupted` stands for. A job's nil and empty lists are one list.
pub mod Base
pub mod Settings
pub mod Download
pub mod Cloud
pub mod Sync
