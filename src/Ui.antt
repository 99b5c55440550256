-- ===== src/Ui.antt =====
-- shield-ui: ui/src/json.rs, ui/src/http.rs, ui/src/collect.rs and ui/src/main.rs.
pub mod Json
pub mod Http
pub mod Collect
pub mod Api
