-- ===== src/Api.antt =====
-- internal/api: the HTTP handlers, on the queue and the tables. A request is what the router, the
-- JSON decoder and the query parser give the handler.
pub mod Response
pub mod Query
pub mod Jobs
pub mod RemoteFiles
pub mod System
