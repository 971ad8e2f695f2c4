-- ===== src/Lib.antt =====
-- iPromise audits a public promise of a software product. It captures the promise, runs a fixed
-- control against a reference product, calculates a verdict from the evidence, plans the actions that
-- follow, builds the one approved remediation and verifies it in a cloud build before anything is
-- published. This library models the core of the agent, services/agent/src/ipromise_agent, and of the
-- reference product, apps/demo_saas/src/ipromise_demo.
--
-- The parts, and how they interact:
-- * Models (models.py): the records and enumerations that the parts exchange.
-- * StateMachine (state_machine.py): the status of a run and its event trail. `start_stage`,
--   `finish_stage` and `fail_run` return the run they change in place. Progress, Trail and Closed reason
--   over any sequence of these operations, Routing over the path to a complete run.
-- * RunStore (store.py): the runs, the idempotency keys and the leases. The source holds a lock around
--   each method, so a method is one step, and workers interleave as a list of timed calls.
-- * Control (control.py): the control over an interface of the client, and the verdict.
-- * DemoSaas (store.py, app.py and models.py of the reference product) with DemoSaas.Client
--   (demo_client.py): the stores, the handlers, and the client as steps on the stores.
-- * Actions (actions.py): the plan of actions and its validation.
-- * Remediation (remediation.py) over Bytes: the approved template, the exact-once replacements and
--   the bounded artifact.
-- * Source (source.py): the visible text and the marked claims of a page, and grounding.
-- * Verifier (cloudbuild_verifier.py): Artifact checks what remediation built, Decisions and Interpret
--   read a build that ended, Poll is the loop over the answers of the cloud, and Receipt translates
--   an outcome for the run, with the binding of Models.Binding (models.py).
-- * Service (service.py): how a run is made, claimed by a worker through the store (Claiming), reset
--   or resumed (Recovery), and failed against its budget of three attempts. Jobs and Dispatch are the
--   dispatch of the planned actions to GitHub and the completion of the run, with GitHub, the store and
--   the clock as a parameter whose answers may depend on all that was done before; Requests, Once,
--   Publish, Single, Routed and Depth reason about it. Checkpoints is what a failed checkpoint turns the
--   run into under its execution lease, with Recovered, Completion and Restored, and Claimed says exactly
--   when a claim starts an operation.
-- * Github (github.py): Path, Candidate and Gate are the checks between a verified candidate and its
--   publication, and Authorized their composition with the receipt of Verifier. Memory and Documents
--   are the two stores, whose methods are steps since the source holds a lock or runs a transaction;
--   Refinement relates them, and Publications, Exclusion and Handoff use the one in memory.
--
-- Base, Lists, Dict, Text, Signed, Errors and Exec are shared: the library's names, lists and dicts
-- over the native numbers, integers, exceptions as values, and state with exceptions. Tests holds
-- sample data and runs at concrete inputs.
--
-- Times are natural numbers of a fixed unit, given as arguments where the source reads a clock. Code
-- outside the repository is a parameter: sha256, UTF-8 decoding, splitlines, difflib, casefold,
-- urlparse, number formats, json.dumps, Firestore and the remote services.
-- The poll loop of the verifier runs on fuel, one unit for each turn; with the bounds of the settings,
-- 1200 seconds in turns of 50 milliseconds, 24001 units are enough. The dispatch of actions calls itself
-- on fuel, one unit for each level: two are enough for a plan with one pull request. The digits of a
-- number run on the number itself. Every other loop is structural.
--
-- Not modelled: the stages of `_execute`, whose operations are modelled one by one; the HTTP layers, the
-- Firestore store of the runs, the requests to the GitHub API, the agent kit of the compiler, the
-- settings and the console, which are wiring, remote calls or another language.
pub mod Actions
pub mod Base
pub mod Bytes
pub mod Control
pub mod DemoSaas
pub mod Dict
pub mod Errors
pub mod Exec
pub mod Github
pub mod Lists
pub mod Models
pub mod Remediation
pub mod RunStore
pub mod Service
pub mod Signed
pub mod Source
pub mod StateMachine
pub mod Tests
pub mod Text
pub mod Verifier
