-- ===== src/Lib.antt =====
-- A verification library for Ledger Daemon (the Python package ledger_daemon/), which reconciles the
-- orders of a merchant with the captures of a payment gateway and the credits of a bank statement,
-- and chases an order only when a policy gate allows it.
--
-- The parts, and the files that model them:
--   * Models (models.py): the verdicts, orders, captures, bank credits, evidence. Dates are triples of
--     numbers; Models/Calendar has their order and `_day_delta` of fs.py,
--     Models/Calendar/Civil the calendar that the latter is compared with.
--   * Money (money.py): integer paise; an amount is a ℤ over the native numbers (Prelude/Int).
--   * Recon (recon.py, with `decide` and `probability_to_ppm` of conformal.py): `_resolve`, the
--     decision table that turns the captures, disputes and tax proofs of one order and what the batch
--     has computed into a verdict. Outcome has the single branches, Resolve the table, Settle the join of
--     settlements with bank credits before it (Settle/Days its dates), Assign the best assignment of
--     credits to the orders of a component, and Engine the whole of `reconcile`; Engine/Receipts joins the run with its settlements.
--   * Policy (policy.py): the gate `evaluate` in front of every money action.
--   * Drift (drift.py): the monitor that scores a window of the stream; Drift/Report is its report,
--     Drift/Signals says what its signals measure.
--   * Authority (authority.py): the controller that takes authority from the fuzzy matcher on such
--     reports; each method returns the new controller.
--   * Executor (executor.py): the write path with its audit table, and the choice of the adapter.
--     The world is a record: the rows, the calls that the adapter answered, the drafts. The adapter
--     answers or raises; other errors of the network, the disk and the database are not modelled.
--   * Cases (cases.py): the states of a case, the search `path_to`, and `CaseStore` over its two
--     tables. A method that raises gives an error and no tables, as a rolled-back transaction.
--   * Risk (risk_control.py): the fit of the score threshold within a rupee-loss budget.
--   * Identities (identities.py): the accounting identities of a settlement and of an invoice.
--   * Evaluate (evaluate.py): the orders that the gated system and the three baselines chase.
--   * Signoff (signoff.py): whether the close may be signed.
--   * Rules (rules.py): learned rules. Rules/Proposal has the checks that run wherever a proposal is
--     built, Rules/Registry the analysts with the capabilities that are used once (Registry/Once),
--     Rules/Store the versions of the rules; Rules/Store/Reachable has the stores that the methods reach,
--     Rules/Activation the receipts of activations.
-- They meet in two places. Policy reads the verdict of Recon, whose evidence carries the
-- calibration of Risk and the state of Authority; Recon/Chase joins the two. Executor runs what Policy
-- allows, Cases keeps what it holds.
--
-- What is a parameter: hashes and ids (SHA-256), the payment adapter, JSON texts, the clock, the
-- floating-point weights of the fuzzy matcher (`Scoring` of Recon), the exposure allowance of
-- risk_control.py, and the functions of Python's library that rules.py calls (`Outside` of Rules).
-- Probabilities are whole billionths, scores parts per million, as in the code.
--
-- Fuel: `path_to` searches the transition graph with as many rounds as the graph has states plus one,
-- and each round visits a new state; every other loop is a recursion on a list.
--
-- Not modelled: the pages and the command line (ui.py, cli.py, panels.py, landing.py), the data
-- generator (datagen.py), the parsers and the ingestion of files (parsers.py, ingest.py), the language
-- model parts (agent.py, model_adapters.py, evidence_reader.py), the certificates with their verifier,
-- the replay of rules. Of rules.py, `compile_resolution` with the evidence registry and the verification
-- of a replay receipt are parameters of the store. Of recon.py
-- the connected components of the candidate graph and the reference that narration.py reads out of a
-- narration are arguments, and `calibrate` is left out; of cases.py the sealed authority events.
pub mod Prelude
pub mod Distinct
pub mod Grouping
pub mod Models
pub mod Money
pub mod Drift
pub mod Authority
pub mod Policy
pub mod Cases
pub mod Executor
pub mod Recon
pub mod Identities
pub mod Signoff
pub mod Rules
pub mod Risk
pub mod Evaluate
