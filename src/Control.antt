-- ===== src/Control.antt =====
-- src/control: the services behind the web control plane.
pub mod Membership
pub mod Projects
pub mod Connections
pub mod Operator
pub mod Reading
