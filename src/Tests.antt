-- ===== src/Tests.antt =====
-- Concrete inputs: runs of the model, and each theorem at an input that meets its hypotheses.
mod Samples
mod Transitions
mod Commitments
mod Guards
mod Planning
mod Values
mod Store
mod Admission
mod Protocol
mod Saved
mod Recovery
mod Invalidation
