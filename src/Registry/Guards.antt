-- ===== src/Registry/Guards.antt =====
-- Who may do what: the conditions under which the handlers of programs/agent-registry-8004/src
-- succeed, and what they then write.
pub mod Feedback
pub mod Wallet
pub mod Ownership
pub mod Pointer
pub mod Access
pub mod Answers
