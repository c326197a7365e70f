-- ===== src/Crud.antt =====
-- The entity store behind the CRUD API: src/crud_store.cc and src/crud_request_handler.cc.
pub mod Store
pub mod Target
pub mod Handler
