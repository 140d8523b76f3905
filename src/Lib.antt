-- ===== src/Lib.antt =====
-- The certificate platform: solar energy that passed validation becomes hourly energy certificates
-- (HECs), which are registered on a chain and stored with their documents, gathered in custody lots,
-- sold to buyers, and retired ("burned") against a receipt.
--
-- The parts, and the files that model them:
-- - Confidence: the score over the five validation layers (app/confidence.py), `calculate_confidence`
--   and `status_from_score`.
-- - Chain: the data of the on-chain registry and inventory (app/blockchain.py). Chain/Mock is
--   `MockBlockchainProvider`, one function for each method, over the state record `Chain`;
--   Chain/Provider is the provider in use, in-memory or the unimplemented Polygon one, and the module's
--   functions over it. The children of Chain/Mock hold the proofs: Cases (what each method does on
--   success and on refusal), Invariant, Totals, Registry, Batches.
-- - Ipfs: the content store (app/ipfs_service.py), all five providers, uploads and the integrity check.
-- - Ledger: the rows of app/models/models.py that custody uses; Ledger/Books says when they agree with
--   one another; Ledger/Samples are rows for the tests.
-- - Market: `buy_from_lot` (app/marketplace.py). Cases, Custody and Laws hold the proofs.
-- - World: the state that the services share: the database of the session and the two providers.
-- - Lot: `create_lot` (app/lot_service.py). Checks, Books and Creation hold the proofs.
-- - Burn: `execute_burn` (app/burn_service.py) up to the call that raises; Loop and Laws the proofs.
-- - Api: the requests of app/api/lots.py, app/api/marketplace.py and app/api/burn.py that change the
--   ledger, with their status codes, commit and rollback.
-- - Issuance: `issue_hec` (app/hec_generator.py), which makes a certificate; Laws has the proofs.
-- - Security: app/security.py, the nonces against replay (Replay has the proofs), the drift of a clock
--   (Drift) and the signature of a payload (Signature). Instant: the times with zones that they read.
-- - Physics and Satellite: app/physics.py and app/satellite.py, the most energy that the sun can give and
--   that a satellite sees, over the float operations of Base/Float; Laws have the proofs.
-- - Telemetry: app/api/telemetry.py, the ingestion of a reading through the five layers up to its
--   certificate; Answer is what is answered. Cases (each stage), Laws (a request), Runs (sequences of
--   requests) and Unreadable have the proofs.
-- - Onboarding: app/api/generator_onboarding.py without the dashboard of a supplier: registration,
--   activation, connections of inverters. Owners is the invariant of their tables, Steps and Laws what
--   each write and each request does to it, Requests the requests in sequence, Once the repetition,
--   Consent what is refused without consent.
-- - Inverter: app/api/inverter_telemetry.py, the ingestion into the two databases of the service. Checks
--   has the outcomes of a device's checks; Links and Heartbeats the proofs.
-- - Consensus: app/consensus.py, the comparison of a plant with its neighbours; Neighbors (whose readings
--   are used), Median and Laws have the proofs.
-- - Session and Store: the session of app/db/session.py, which flushes only when told to, and the tables
--   of accounts and of the dashboard, with their unique constraints, flush, commit and rollback.
-- - Identity: app/identity.py, the roles and the profile that every account has; Roles and Users have
--   the proofs; Store/Keeps what a flush and a request keep.
-- - Auth: app/auth.py, and `get_current_user` of app/api/consumer_pf.py; Tokens and Accounts the proofs.
-- - Consumer: the rest of app/api/consumer_pf.py. Seeds, Tiers, History, Rewards and Board are what a
--   request computes, each with a module Laws; Requests has the five requests, Requests/Books the books
--   of points, Requests/Parts and Requests/Laws what each part and each request does to them, and
--   Requests/Seeding what an empty catalog does.
-- - Base: what the other files share: lists, dicts, keys, texts, and calls that may raise.
--
-- The correspondence: a Python function that reads and writes state is an `Action`, a function from the
-- state to a result or an exception and the state after it; a raise keeps what was written before it,
-- and only a request's handler rolls the database back. A table is the list of its rows in the order of
-- insertion, a query a filter of it, a relationship a search by key. Ids that the code draws (UUIDs) and
-- readings of the clock are arguments. Quantities are non-negative in the code's own guards and columns
-- and are natural numbers here; energies count 10^-4 kWh, unit prices 10^-4 BRL and balances 10^-2 BRL,
-- the scales of the columns. A subtraction stands only where a guard before it makes it exact, but for
-- the energy left in a position, where the code rounds. In Session and Store a table also has pending
-- rows, which no query finds before a flush, and a uuid4 is the next number of a counter.
--
-- Parameters stand for what is not in the repository: SHA-256 and UTF-8 (hashlib, str.encode), the
-- canonical JSON of a lot's manifest (json.dumps), the sum of energies as floats, read back at the
-- column's scale, the text of a UUID, and the division of Decimals in a burn; the distances and float quotients of
-- the consensus; the calendar, float quotients and roundings of the dashboard; HMAC, base64, JSON and the methods of
-- str in accounts; the digits of a document; which statements of the ingestion of inverters raise in their databases;
-- and, of the repository, the bytes of a certificate's document and of its drawing.
--
-- Recursion is structural throughout, so that no fuel is needed, but for printing a number (Base/Text),
-- where the fuel is more than the number and every round divides it by ten.
--
-- Not modelled: the document of a
-- certificate, the dashboard of a supplier, OAuth, the workers and integrations, the migrations, and the
-- Solidity contracts. A request's caller is given, as the token check (Auth) would give it. Texts of exceptions are constructors of `Exn`, which keep what a handler reads
-- off them.
pub mod Base
pub mod Confidence
pub mod Chain
pub mod Ipfs
pub mod Ledger
pub mod Market
pub mod World
pub mod Lot
pub mod Burn
pub mod Api
pub mod Security
pub mod Issuance
pub mod Consensus
pub mod Session
pub mod Store
pub mod Identity
pub mod Auth
pub mod Consumer
pub mod Instant
pub mod Physics
pub mod Satellite
pub mod Telemetry
pub mod Onboarding
pub mod Inverter
