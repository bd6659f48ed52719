-- ===== src/Models.antt =====
-- vyomel/models: which model provider is asked.
pub mod Circuit
pub mod Router
