-- ===== src/Lib.antt =====
-- Verification of the execution core of the copy-trading engine: what decides which reads are made,
-- what is known of each planned order, and what the signing service keeps about its submissions.
--
-- The program's parts and how they interact. The observer reads the exchange through a scheduler that
-- keeps within rate limits. Its decisions become planned actions with an identity, the cloid, and a life
-- cycle from the decision to a reconciled result. Before it is planned, the targets of the portfolio are
-- projected within the caps on exposure, and what is filled, open or unknown is kept beside each target.
-- A ledger books the fills, modelled or verified by the exchange, as positions and episodes, and the live
-- accounting keeps the equity that may be deployed. An approved action is sent to the signing service as an
-- intent; the service hands out nonces, keeps the state of each submission, and stores the verified
-- results in an outbox that the observer reads and acknowledges.
--
-- Which file models which part:
--   Base, BTreeMap     shared helpers; maps and sets of the standard library as lists in key order
--   Decimal            what the program uses of rust_decimal::Decimal, as an interface, and an instance
--   Identity           crates/copytrade-core/src/decision.rs: derive_planned_cloid and what it hashes
--   Scheduler          crates/copytrade-core/src/scheduler.rs: Request, Policy, Bucket
--                      (WeightedTokenBucket), Queue (QueueState), Retry (RetryPolicy), Methods
--                      (RequestScheduler; Execution has the dispatch, Health
--                      the report), Snapshots (SnapshotStore)
--   Lifecycle          crates/copytrade-core/src/lifecycle.rs: LifecycleState; Events has
--                      apply_lifecycle_event and its parts; Registry is LifecycleRegistry
--   Signer             crates/copytrade-signer/src/lib.rs: Intent (ApprovedExecutionIntent), Nonce
--                      (NonceAllocator), Submissions (SubmissionRegistry; Transitions has its
--                      transitions, Restore the tests of restore); Outbox is crates/copytrade-signer/src/outbox.rs
--   Portfolio          crates/copytrade-core/src/portfolio_risk.rs: Targets (the targets under the caps),
--                      Ranges (projected_ranges, range_metrics), Stage (stage_risk_reducing_deltas),
--                      Project (project_and_validate_portfolio, validate_final_ranges)
--   Targets            crates/copytrade-core/src/target_state.rs: VirtualTargetLedger
--   Shadow             crates/copytrade-core/src/shadow.rs: execute_shadow_ioc; Pricing (plan_marketable_ioc)
--   Decision           crates/copytrade-core/src/decision.rs: construct_planned_actions and the versions of
--                      the targets
--   Float              the floats that the consensus and the confidence compute with
--   Consensus          crates/copytrade-core/src/consensus.rs: bounded_additive_consensus; Book
--                      (SourceExposureBook)
--   Confidence         crates/copytrade-core/src/confidence.rs
--   Exit               crates/copytrade-core/src/exit_planning.rs; Floor (execution_floor.rs)
--   Ledger             crates/copytrade-core/src/ledger.rs: EpisodeBook; Executions has apply, Dual is
--                      DualLedger; Queries and Valuation (equities)
--   Live               crates/copytrade-core/src/live_trading.rs: LiveTradingState; Cursors has what
--                      new and load test, the cursors and the equities; Fills has apply_exchange_fill and
--                      apply_funding_event; Positions has reconcile_positions
-- The modules under a part that are named for what they prove hold the lemmas; Tests modules hold
-- the theorems at concrete inputs.
--
-- How state and operations correspond. A struct is a record with its fields, an enum a data type with its
-- variants. A method that changes its struct returns the struct after the call beside its result, also
-- where the result is an error; the methods of the ledger, of the targets and of the live accounting
-- return it with a result only, since what they leave on an error is a clone that is dropped, or state that
-- their callers do not go on with. A lock that is held over a whole method makes the method one step; the
-- semaphore of the scheduler is the number of its free permits, and a permit that is dropped is a release.
-- The clock is an argument. The threads of the scheduler are interleaved as sequences of its methods, and
-- those of the nonce allocator as sequences of turns of its loop, each with any value it may have loaded.
-- Numbers are natural numbers; sums that are checked, saturate or wrap do so at the width of the type.
-- An identifier of bytes is the number that they spell.
--
-- Parameters: the decimals with their order and the laws of their signs, sums and literals, the floats with
-- their order, the digest SHA-256, the debug text of a request key, and the encoding of a payload, since
-- their code belongs to libraries. An intent holds the scale of its decimals beside their values, since
-- equal decimals may differ in it.
-- The debug texts of pricing errors are parameters too, and `+` and `-` have a value of no meaning
-- where they would panic. The loop that takes staged reductions back runs on fuel, one turn more than
-- there are deltas, since each turn makes one more of them zero. Every other recursion is structural.
--
-- Not modelled: files, sockets, serialization, signatures and the exchange; the allocation, the cohort and
-- the technical signals of the core; and the older bots of src.
pub mod Base
pub mod BTreeMap
pub mod Decimal
pub mod Identity
pub mod Scheduler
pub mod Lifecycle
pub mod Signer
pub mod Portfolio
pub mod Shadow
pub mod Ledger
pub mod Live
pub mod Targets
pub mod Exit
pub mod Float
pub mod Confidence
pub mod Consensus
pub mod Decision
