-- ===== src/Lib.antt =====
-- darkreach searches for primes of special forms: it sieves candidates, tests the survivors,
-- writes checkpoints, divides searches into work blocks, and runs projects of several phases.
--
-- The parts and their files:
--   Sieve (src/sieve.rs): `pow_mod` and `gcd` in Sieve/ModArith, `MontgomeryCtx` in
--     Sieve/Montgomery, `factor_u64` in Sieve/Factor, `mod_inverse` and `multiplicative_order` in
--     Sieve/Order, the sieve limit in Sieve/Depth, `BitSieve` in Sieve/BitSieve, Fermat's little
--     theorem in Sieve/Fermat, and `discrete_log_bsgs` in Sieve/DiscreteLog, whose f64 root is a
--     parameter. A u64 is a natural number; sums and products
--     that the source does not wrap are checked, as in a debug build, and an overflow is `panic`.
--     The order is computed with the context and the factors, as in the source.
--   Checkpoint (src/checkpoint.rs): the data in Checkpoint/Format, `load` in Checkpoint/Load, `save`
--     in Checkpoint/Save and `clear` in Checkpoint/Clear. The file system is a map from paths to
--     contents. Each call of it may fail: the reads of a load by their path, the renames,
--     the write and the removals by the step of the save or the clear. serde_json and sha2 are the
--     parameter `Codec`.
--   SearchParams (src/search_params.rs): the forms, their command lines and ranges.
--   Jobs (src/db/jobs.rs): the division of a range into work blocks, for bounds that are not
--     negative, and the summary of a job.
--   Project (src/project and src/db/projects.rs): rows in Project/Rows, the strategy in
--     Project/Strategy, the rules for phases in Project/Phases, the calls of the database in
--     Project/Store, and a tick of the orchestration in Project/Tick, whose steps are the numbered
--     steps of `orchestrate_project`. serde_json is the parameter `Json`, f64 is `Floats`. Every
--     call of the database may fail, by its number; a failed call ends the tick where the source
--     says `?`, and what was written stays.
--   Forms (the search forms, each a file of src): the sieves and filters that decide which candidates
--     are tested. Forms/Sweep is the loop over a vector that they share, Forms/Incremental what the
--     factorial and the primorial sieve share (src/factorial.rs, src/primorial.rs); the others are
--     Forms/Kbn (src/kbn.rs), Forms/CullenWoodall (src/cullen_woodall.rs), Forms/CarolKynea (src/carol_kynea.rs),
--     Forms/GenFermat (src/gen_fermat.rs), Forms/Wagstaff (src/wagstaff.rs), Forms/NearRepdigit
--     (src/near_repdigit.rs) and Forms/Palindromic (src/palindromic.rs). A vector that is indexed by
--     n is a list whose first entry belongs to the first n. A parallel map is a map in order.
--     A module Exact compares a sieve with divisibility, and a module Safe says what a threshold is
--     worth.
--   Limits (src/lib.rs): block sizes.
--   Common: shared names, checked arithmetic, strings, results with a state, and lemmas on bits,
--     congruences and primes.
--   Tests: the theorems at concrete inputs.
--
-- Loops run on fuel: 64 rounds for a power (one for each bit of the exponent), one more than the
-- second number for gcd, one more than n for the trial division, one for each number of a range for
-- the division into blocks, 65 for the threshold of the factorial sieve and 64 for the trailing zeros
-- of a base, max_n + 2 for a progression of the k*b^n sieve. The theorems show that it is enough.
--
-- Not modelled: generate_primes; the loops of the searches, whose candidates
-- are tested by rug and pfgw, and the forms twin, Sophie Germain and repunit; the proofs;
-- the other database calls, the dashboard, the agents and the command line; log lines and the texts
-- of events. The integers of a project's row and of its phases are natural numbers; the sums
-- of the totals are checked, the order of a new phase is not bounded. The blocks that the creation of
-- a job inserts are in Jobs, and a tick takes the id of the job as given.
pub mod Common
pub mod Sieve
pub mod Checkpoint
pub mod SearchParams
pub mod Jobs
pub mod Project
pub mod Limits
pub mod Tests
pub mod Forms
