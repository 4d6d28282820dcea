-- ===== src/Lib.antt =====
-- EcoMint: green bonds on Stellar. This library models the core of the API (the directory api/src):
-- TypeScript services that keep state in memory, on disk, in Redis and in PostgreSQL, and call Soroban
-- contracts on behalf of wallets.
--
-- How the parts interact. A wallet logs in by a signed challenge (Access), which reads its KYC status
-- (Kyc); the KYC guard decides who may trade. The marketplace (Market) reads orders from the ledger of
-- the DEX router through Redis caches, checks a request and signs a contract call with the next nonce
-- of the wallet (Nonce). The holder index (Holders) follows subscriptions and transfers of bonds and
-- gives the holders that a coupon is paid to. The bonds service (Bonds) issues, transfers and matures
-- bonds and pays coupons, and asks the oracle service (Oracle) for the report that a coupon pays on; the
-- oracle takes evidence references (Cid), which also name the metadata of projects (Projects), and its monitor records incidents for stale projects in a table
-- (Incident). Requests may carry an idempotency key (Idempotency) and are counted (RateLimit). Admin
-- actions need a signed intent (Access). The coupon schedule of a new bond is checked in the form and
-- again by the API (Schedule).
--
-- Which file models what:
--   Kyc/Types      api/src/common/interfaces/authenticated-request.interface.ts
--   Kyc/Store      api/src/common/services/kyc-store.service.ts: applyTransition, persist,
--                  loadSnapshot, replayAudit, onModuleInit
--   Kyc/Service    api/src/auth/kyc.service.ts, and canActivate of api/src/common/guards/kyc.guard.ts
--   Incident/Types, Incident/Repository
--                  api/src/oracle/oracle-incident.repository.ts and its interface: recordDetection,
--                  acknowledge, resolve, findById, and the parsing of the escalation thresholds
--   Nonce          api/src/common/services/nonce.service.ts: next
--   Market/Types, Market/Orders, Market/Trading
--                  api/src/marketplace/dex.service.ts: listOrders, getOrder, fetchOrderFromLedger,
--                  buyBondTokens, cancelOrder, listBondTokens, depositQuote, withdrawQuote,
--                  cleanExpiredOrders, mapDexError
--   Market/QuoteAssets
--                  api/src/marketplace/quote-assets.ts
--   Market/Liquidity
--                  api/src/marketplace/liquidity.service.ts: getPriceFeed, getBestPrice,
--                  calculateSlippage
--   Market/Reconciliation
--                  api/src/marketplace/dex.reconciliation.service.ts: reconcile, repair
--   Holders/Store  api/src/bonds/holder-store.ts: FileHolderStore
--   Holders/Index  api/src/bonds/holder-index.service.ts
--   Oracle/Types, Oracle/Reports, Oracle/Calls
--                  api/src/oracle/oracle.service.ts: getProjectReports, getReport,
--                  getReportChallengeState, getCouponEligibility, submitReport, challengeReport,
--                  registerProvider, listProviders
--   Oracle/Manifest
--                  api/src/oracle/manifest-verification.ts
--   Oracle/Monitoring
--                  api/src/oracle/oracle.monitoring.service.ts: computeStaleness, syncIncidents
--   Bonds/Types, Bonds/Reads, Bonds/Calls, Bonds/Export
--                  api/src/bonds/bonds.service.ts, every request; exportBond with its checksum is in
--                  Bonds/Export
--   Idempotency/Service, Idempotency/Interceptor
--                  api/src/common/services/idempotency.service.ts and
--                  api/src/common/interceptors/idempotency.interceptor.ts: intercept as a program
--                  counter for each request and a step for each access to Redis
--   RateLimit/Guard
--                  api/src/common/guards/rate-limit.guard.ts: canActivate
--   Schedule/Validators, Schedule/Seconds
--                  frontend/src/app/shared/validators/coupon-schedule.validators.ts and
--                  api/src/bonds/dto/coupon-schedule.validator.ts
--   Projects/Service
--                  api/src/projects/projects.service.ts: register, findAll, findOne, approve, reject,
--                  uploadDocuments
--   Cid/Base58, Cid/Reference
--                  api/src/common/utils/cid.util.ts, on texts as lists of character codes
--   Access/Intent  api/src/common/services/intent.service.ts: verify
--   Access/Challenge
--                  api/src/auth/auth.service.ts: generateChallenge, verifySignature
-- The other files of these directories hold proofs and are named for what they are about; the files
-- called Tests hold concrete runs. Prelude has the shared names, tests, lists and dictionaries.
--
-- How it is modelled. A service is a record of the state it keeps; an operation is a function from its
-- arguments, its surroundings and the state to the new state and the answer. The surroundings (the
-- clock, random identifiers, whether Redis or a file answers, the replies of the ledger and of a
-- contract) are arguments. An exception is a value. A keyed object is an association list. Numbers are
-- natural numbers: amounts, prices and times are non-negative in the source, bigint amounts do not
-- overflow, and a subtraction stops at 0 only where the source takes the maximum with 0 or has
-- compared the two sides before. The numbers in a request to the
-- marketplace may also have a fraction or not fit the type of the contract (JsNumber). The numbers in a report of
-- the oracle, the dates of a coupon schedule and the counts of the escalation thresholds are any finite
-- numbers, counted in units of 2^-1074. Each operation runs without another one in between, as
-- applyTransition does under its lock, but for the requests with one idempotency key, which interleave.
--
-- Bounds and fuel. Every loop is structural recursion on a list or on a count that the source has
-- (the number of orders, the number of bonds), so no fuel is needed, but for two: the loop that pushes a
-- carry in base 58 has the carry as its fuel, which each round makes smaller, and the loop that puts out
-- base 32 groups has 3 rounds, since fewer than 5 bits are left before each byte. The pages asked for by the
-- liquidity service hold 100 orders. A challenge lives 300 seconds, a nonce of an intent for its
-- remaining life and 300 seconds more.
--
-- What is given. The balances and orders on the ledger, the replies to contract calls, the check of an
-- ed25519 signature, the challenge transaction of the Stellar SDK, and JavaScript's trim and
-- toUpperCase are parameters without any hypothesis on them.
--
-- The pinning of metadata, zod, SHA-256 and HMAC are given too; so is, in Oracle, the encoding of an
-- evidence reference, which Cid models on lists of characters. Redis is taken to answer and to keep the
-- record of an idempotency key.
--
-- What is not modelled. The anomaly detection of the oracle, the export and the provenance of a project,
-- the check of its boundary and the portfolio are later parts. The controllers, the
-- validation of request bodies, configuration and logging are wiring of the framework. The rest of the
-- frontend and the contracts (Rust) are other programs. Of the modelled services, what only lists rows for
-- display (listAudit, findMany) and the refresh of tokens are left out; of the reconciliation, the
-- choice of the wallets to sample and the stored copies of the report.
pub mod Prelude
pub mod Kyc
pub mod Incident
pub mod Nonce
pub mod Idempotency
pub mod Cid
pub mod RateLimit
pub mod Schedule
pub mod Projects
pub mod Oracle
pub mod Bonds
pub mod Market
pub mod Holders
pub mod Access
