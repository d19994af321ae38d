-- ===== src/Exchange.antt =====
-- exchange/: the submission of signed actions.
pub mod Responses
pub mod Submission
