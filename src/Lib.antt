-- ===== src/Lib.antt =====
-- Verification of the Go backend of ketapod, an audiobook shop: a library of models and theorems.
--
-- The program's parts and where they are modelled
--   Schema                 the tables of the database, in one record `Db`, and the errors
--   Store                  the repository: one statement, `InTx` of backend/internal/commerce/repo.go
--                          and identity/repo.go; Store/Rules, Store/Reads and Store/Steps reason
--                          about runs
--   Commerce/Model         the records of backend/internal/commerce/model.go
--   Commerce/Wallet        `Balance`, `Credit`, `Debit`, `debitLocked` of
--                          backend/internal/commerce/service.go; Wallet/Lock interleaves concurrent
--                          debits under the advisory lock of `LockWallet`; Wallet/Accounts has the
--                          accounts that the wallet is to behave as
--   Catalog/Slugs          `Slugify` of backend/internal/catalog/write.go
--   Catalog/Write          `CreateBookInTx`, `UpsertNarratedEditionInTx`, `SetBookCoverURL` and
--                          `SetBookDescriptionIfEmptyInTx` of the same file
--   Ingest/Uploads         `validate` and `safeFileName` of backend/internal/ingest/service.go
--   Ingest/Submit          `Submit` and `Get`
--   Ingest/Dispatch        `Dispatch`, `Redispatch`, and `ProcessTask` of `DispatchHandler` in task.go
--   Ingest/Narration       `readyParts`, `chaptersFrom` and `materialise` of audio.go;
--                          Narration/Sync has `SyncAudio` and `SyncAudioSweep`, with
--                          `UpsertEditionAsset` of backend/internal/media/write.go
--   Commerce/Coupons       `Coupon.Discount`, `evaluateCoupon`, `PreviewCoupon`
--   Commerce/Payments      `StartTopUp`, `SettleTopUp`
--   Commerce/Entitlements  the statements that grant, revoke and read entitlements
--   Commerce/Purchase      `Purchase`: the idempotency key, the pricing loop, the coupon and the
--                          transaction, each a definition of its own
--   Commerce/Refunds       `RequestRefund`, `ApproveRefund`, `RejectRefund` of
--                          backend/internal/commerce/service_access.go
--   Commerce/Subscriptions `Subscribe`, `CancelSubscription`, `RecordSubscriptionUsage` and access
--                          through a subscription, of service_access.go with the methods of
--                          repo_subscriptions.go; Subscriptions/Renewal has
--                          `ReconcileSubscriptions` and `renewOne`
--   Identity               users, roles, status and devices of backend/internal/identity/service.go
--                          and repo.go, with `registerDevice`
--   Identity/Sessions      `RefreshToken`, `Logout`, `LogoutAll`, `issueTokenPair`
--   Identity/Otp           `RequestOTP`, `VerifyOTP`
--   Jobs                   `Write`, `Claim`, the marks, `ReadStats`, `Purge` of
--                          backend/internal/platform/outbox/outbox.go; Jobs/Relay has `DispatchBatch`
--                          of relay.go, and Relay/Loop the inner loop of its `Run`
--   Kids                   the playback policy of backend/internal/kids/policy.go and the default
--                          controls of model.go
--   Kids/Profiles          the profiles of a parent and their controls, of
--                          backend/internal/kids/service.go and repo.go
--   Kids/Approvals         `SetApproval`, `ListApprovals`, `ClearApproval`, `SetExitPin`,
--                          `VerifyExitPin`
--   Kids/Guard             `CheckPlayback`, `ScreenTime`, `ListAllowedPrompts`, `ResolvePrompt`,
--                          `WeeklyReport`
--   Kids/Requests          the operations of a parent that write, as one type of requests
--   Media                  `clampRange` of backend/internal/media/rangeclamp.go and
--                          `PreviewByteLimit` of access.go
--   Media/Access           `ResolveAccess` of backend/internal/media/service.go
--   Media/Tokens           `Sign` and `Verify` of access.go
--   Media/Playback         `PlaybackURL`, `StreamURL`, `OpenAsset` of service.go
--   Library                `Streaks` of backend/internal/library/service.go
--   Library/Positions      `SyncPosition`, `recordListening`, `SecondsListenedForEdition` of
--                          service.go with positions.sql
--   Base                   what they share: Boolean tests, lists, int64 arithmetic, texts
--   Samples                a database without rows, for the examples
--
-- How they interact: commerce, identity, the outbox, kids, ingest and the positions of library work
-- on one value `Db` of the tables. A method of a service is a run of the monad `M` of Store, from a world to a
-- result and a world; the repository's methods are its statements.
-- A purchase debits the wallet, a settled top-up and an approved refund credit it, and a refund
-- takes back the entitlements that a purchase gave. `RequestOTP` writes its code and the job that
-- sends it in one transaction, through `Write` of the outbox. `VerifyOTP` registers a device and
-- issues the first token of a family. A position that is synchronised records the hours of a
-- subscription of commerce. Playback signs a token for what the decision on access allows, and
-- opens an asset with the range that `clampRange` leaves. Kids answers media through `CheckPlayback`,
-- which reads the rows that the requests of the parent have left and asks the policy. `Submit` writes
-- the rows of the AI service, a book of the catalogue, the submission and a job of the outbox in one
-- transaction; that job runs `Dispatch`; and the sweep turns the files that the AI service has made
-- into a narrated edition of the book, with its chapters and its asset. The streaks stand alone.
--
-- How state and operations correspond to the code
--   A uuid is a number, and `none` is the empty or NULL one; a new one is `next_id`. A text that the
--   code only compares is a number; coupon codes, range headers, stream tokens and ids of assets are
--   bytes, and trimming and upper case are those of ASCII. The texts of the catalogue, of ingest and the
--   names of children are code points, and the file names that ingest stores are their UTF-8. The
--   length of an audio file is counted in thousandths of a second, the scale of its column, so that the
--   float64 sums of its parts and their rounding to three decimals are exact here. Times are seconds, and nanoseconds in
--   stream tokens. Amounts are int64, as integers with their wrap-around written out (`wrap64`).
--   A table is a list with the newest row first, and the CHECK constraints and unique indexes of
--   backend/migrations that a statement can meet are written out in it. The database's clock is
--   `now`; where the code asks the clock of the server, that is a parameter. The hours that a
--   subscription has used are counted in millionths and the seconds of a position in thousandths,
--   the scales at which they are stored; the ratio of a refund is compared as the exact fraction.
--   A world carries a schedule of faults: any statement, a commit too, may fail with `storage`
--   and then changes nothing, so that every error path is a run.
--   Parameters are the catalog, the payment gateway, the reader of listening times, the popularity
--   counter, the hash of codes and tokens, the random texts, the answers of the rate limiter, what
--   the job queue refuses, the MAC, base64, and the lookups of audio assets; for kids the reader of
--   uuids, SHA-256, and the listening and the minute of the day; for ingest the letters and digits of
--   Unicode, the object store, the AI service with its files and summaries, the joining of files, the
--   digest of their list, and the random suffixes of slugs.
--
-- Bounds and fuel: every loop of the code is a recursion on the list that it walks, or on the number
-- of devices above the cap. Two definitions take fuel: the printing of a number, one more than the
-- number, which Media/Tokens/RoundTrip shows to be enough, and the inner loop of `Run` of the relay,
-- for which Jobs/Relay/Loop says how much is. The theorems that need a number to fit an int64 say so.
--
-- Not modelled: branches that refuse a malformed uuid, the paginated lists, the ids of order items
-- and redemptions, columns that no modelled operation reads, the int32 conversions and the CHECK
-- on the preview of a narrated edition, the refusal of a text that is cut inside a letter but as a
-- fault, and the reads of plans that `ListSubscriptionsDueForRenewal` does and nobody uses; HTTP
-- handlers and middleware, generated code, clients of external services, the signature of access
-- tokens, the endless outer loop of `Run` of the relay, and the packages home and platform but for
-- the outbox; of catalog the reads, the search and the normalisation of texts; of ingest the lists
-- for the panel, the covers and the client of the AI service; of media and library what the list
-- above does not name. Operations run one after the other; only Wallet/Lock interleaves.
pub mod Base
pub mod Catalog
pub mod Commerce
pub mod Identity
pub mod Ingest
pub mod Jobs
pub mod Kids
pub mod Library
pub mod Media
pub mod Samples
pub mod Schema
pub mod Store
