-- ===== src/Idl.antt =====
-- internal/idl: the routes of an IDL bundle (routes.go) and the loading of an archive (loader.go).
pub mod Ast
pub mod Routes
pub mod Loader
