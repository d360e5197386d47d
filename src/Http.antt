-- ===== src/Http.antt =====
-- The HTTP data types of include/webcrown/server/http/.
pub mod Method
pub mod Error
pub mod Status
pub mod Phase
pub mod Request
pub mod Context
pub mod Response
