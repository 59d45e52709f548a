-- ===== src/Examples.antt =====
-- Concrete runs of the modelled code, and the theorems at concrete inputs.
mod Adapter
mod AdapterEvents
mod Artifacts
mod Authorization
mod Backend
mod Csp
mod Grants
mod ManagerState
mod Requests
mod Worker
