-- ===== src/Session.antt =====
-- apexd/apexd_session.{h,cpp} and proto/session_state.proto: sessions, their persisted states, and
-- the session manager.
pub mod State
pub mod Manager
pub mod Persistence
pub mod Cleanup
