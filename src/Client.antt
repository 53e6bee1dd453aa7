-- ===== src/Client.antt =====
-- packages/client/src: what a client keeps of the observer's state. The children model the event
-- reducer and the connection state.
pub mod Notices
pub mod Reducer
pub mod Identity
mod Tests
