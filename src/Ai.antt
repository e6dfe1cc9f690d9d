-- ===== src/Ai.antt =====
-- internal/ai: what the text of a model is checked for before a client sees it. The call of the
-- model and the prompts are not part of it.
pub mod Tickers
pub mod Stoplists
pub mod Explain
pub mod Validator
pub mod Metrics
pub mod Refused
pub mod Checked
pub mod Sanitized
