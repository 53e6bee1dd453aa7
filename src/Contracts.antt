-- ===== src/Contracts.antt =====
-- packages/contracts/src: the data that the components exchange. An optional field is an `Option`;
-- `undefined` is `none`. Identifiers, timestamps and texts are strings, as in the schemas.
pub mod Status
pub mod Hooks
pub mod Snapshot
pub mod Commands
pub mod Events
pub mod Runtime
