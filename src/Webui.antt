-- ===== src/Webui.antt =====
-- pkg/webui: the HTTP interface. macaron, its sessions and the form binding are parameters.
pub mod Session
pub mod Context
pub mod Api
pub mod Server
pub mod Laws
pub mod Access
pub mod SignedIn
pub mod Histories
