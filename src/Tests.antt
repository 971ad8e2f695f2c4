-- ===== src/Tests.antt =====
-- Concrete inputs: the theorems applied where their hypotheses hold, and evaluations of the code.
mod Actions
mod Control
mod Dispatch
mod Remediation
mod Github
mod GithubStore
mod RunStore
pub mod Samples
mod Service
mod Source
mod StateMachine
mod Verifier
