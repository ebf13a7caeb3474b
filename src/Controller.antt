-- ===== src/Controller.antt =====
-- internal/controller/gitapplication_controller.go
pub mod Validation
pub mod Conditions
pub mod Credentials
pub mod Prune
pub mod Requests
pub mod Reconcile
