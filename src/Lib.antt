-- ===== src/Lib.antt =====
-- The core logic of sfinx-backend (a NestJS server for programming problems, contests and
-- discussions), modelled from the TypeScript files under src/modules and proved. Paths below are
-- from the repository's root.
--
-- The program's parts and how they interact. The contest module keeps contests, their problems
-- and their participants: ContestService moves a contest through its states and lets users join,
-- ContestLeaderboardService changes a participant's totals after each judged submission, and
-- ContestRatingService ranks and rates the participants of an ended contest. The submissions
-- module sends code to a judge, which calls back once per test: CallbackProcessorService counts
-- the callbacks and schedules one finalize job under a lock of LockService,
-- SubmissionStatsCalculatorService turns the results into a verdict, and SubmissionsService
-- stores it, updates the user's progress through UserProgressService and emits events. An
-- accepted submission also counts into the statistics that rank users, in the database and in a
-- sorted set of Redis. AuthService gives out access and refresh tokens, and it, the reset tokens
-- and Google's callback write the users. Payments give premium time, which daily jobs end, and
-- study plans follow the progress of those enrolled. Favorite lists count those who saved them;
-- comments and votes are shared by problems, solutions and discussions; test case files are
-- checked before they are stored, and listings are cut into pages. All of them keep their state
-- in a database, and locks, counters and results in Redis.
--
-- Which file models which part (all under src/modules):
--   Base                    shared names, results that throw, lists, integers, rounding, decimals,
--                           names in a table
--   Base/Table              a database table behind the operations of a TypeORM repository
--   Contest                 contest/entities/*.entity.ts as records
--   Contest/Status          contest/services/contest.service.ts: start, end, cancel, delete, the sweep
--   Contest/Participants    contest/services/contest.service.ts: joinContest, unregisterFromContest
--   Contest/Scoring         contest/services/contest-leaderboard.service.ts: applyParticipantUpdate;
--                           contest/strategies/ioi-ranking.strategy.ts
--   Contest/Rating          contest/services/contest-rating.service.ts
--   Contest/Problems        contest/services/contest.service.ts: addProblemToContest,
--                           removeProblemFromContest, reorderContestProblems
--   Contest/Editing         contest/services/contest.service.ts: createContest, updateContest,
--                           generateUniqueSlug
--   Submissions/Verdict     submissions/services/submission-stats-calculator.service.ts
--   Submissions/Callbacks   submissions/services/callback-processor.service.ts,
--                           submission-tracker.service.ts
--   Submissions/Progress    submissions/services/user-progress.service.ts, submissions.service.ts:
--                           updateSubmissionAfterJudge
--   Submissions/Finalize    submissions/services/callback-processor.service.ts: finalizer;
--                           submission-result-builder.service.ts
--   Payments                payments/services/payments.service.ts: handlePaymentCallback, upgradeUser
--   Payments/Checkout       payments/services/payments.service.ts: createPaymentUrl;
--                           fee-config.service.ts: getTotalFeePercentage
--   Payments/Expiry         payments/services/payment-subscription.service.ts
--   StudyPlans              study-plans/services/study-plan-enrollment.service.ts
--   StudyPlans/Editing      study-plans/services/study-plan.service.ts: publish, archive, remove and
--                           the items
--   Redis/Locks             redis/services/lock.service.ts
--   Redis/Limits            redis/services/rate-limiter.service.ts
--   Submissions/Statistics  submissions/services/user-statistics.service.ts
--   Auth                    auth/auth.service.ts: sessions; users/users.service.ts: banUser, unbanUser
--   Accounts                auth/auth.service.ts: registering, emails, passwords;
--                           auth/services/google-oauth.service.ts: handleGoogleCallback
--   Favorites               favorite-list/services/favorite-list.service.ts
--   Testcases               problems/services/testcase-validation.service.ts
--   Pagination              ../common/utils/pagination.util.ts, ../common/dto
--   Social/Votes            comments-base/base-votes.service.ts
--   Social/Comments         comments-base/base-comments.service.ts
-- Under each of them, a file is named for what its theorems show, and Tests applies the theorems
-- to concrete inputs.
--
-- How state and operations correspond. A table (Base/Table) is a parameter: a record of the
-- operations find, save, delete, count and update with the laws that the documentation of the
-- database gives them; list_table meets the laws. Redis hashes, sets and keys are such tables
-- too, with expiry times where keys have them. A service's method is a function from the tables'
-- rows to the rows it leaves, with a Result, which is ok or throws one of the HTTP exceptions by
-- kind, where it can throw; message texts, logging, caches and response objects are left out.
-- Each method is one step: interleaved requests are modelled only where a file says so (the
-- attempts at a lock, callbacks and payments in any order). Dates and durations are numbers of
-- milliseconds, scores and amounts numbers of hundredths. Times, fresh identifiers and what
-- other parts answer are arguments.
--
-- Bounds. The loop of LockService.acquire runs on the number of retries left, which is enough
-- for every run. The binary search of the ratings runs on fuel 8000, the width of its range; the
-- searches for a username and for a slug on one round more than there are users or contests, and
-- the loop over the batches of warnings on one more than there are users. Theorems say that each
-- of these is enough.
--
-- Parameters. Calendar arithmetic (setMonth, setHours), JWT, bcrypt and SHA-256, slugify, the
-- numbered usernames (a theorem that needs them distinct says so), findAndCount of a repository,
-- the queries for a greatest order index or day number, the months that a plan has when a
-- callback reads it, whether a rating's expected rank, a floating point number, is below the
-- middle rank, the price that floating point gives, and the rows that other modules own are
-- arguments of the definitions that use them.
--
-- Failures. Where a theorem depends on them, the failures of Redis, of the queue and of the
-- publishing are arguments of the step: callbacks, the finalize job, the locks and the rate
-- limits say which calls fail. The metadata of a submission's callbacks has its expiry time; the
-- keys of its results and tokens have none, since they are not there when the expiry is set.
--
-- Not modelled: the retry loop around the update of a participant's score, whose attempts fail
-- as the database decides; controllers, DTO mapping, list queries with filters, mail, storage,
-- AI and payment providers, whose code is input and output around third-party services; roles
-- and permissions, administration and its statistics; the sliding window of the rate limiter;
-- the caches.
pub mod Base
pub mod Social
pub mod Contest
pub mod Redis
pub mod Submissions
pub mod Payments
pub mod StudyPlans
pub mod Favorites
pub mod Auth
pub mod Accounts
pub mod Pagination
pub mod Testcases
