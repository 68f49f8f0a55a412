-- ===== src/Util.antt =====
-- The helpers of osrm-backend/util.
pub mod StringUtil
