-- ===== src/Bruno.antt =====
-- internal/brunogen and cmd/bruno-gen: the generator of a Bruno collection from the source of the
-- API.
pub mod Ast
pub mod Patterns
pub mod Routes
pub mod Structs
pub mod Endpoint
pub mod Generator
pub mod Registration
pub mod Overwritten
pub mod Categories
pub mod Collection
pub mod Urls
pub mod Variables
pub mod Json
