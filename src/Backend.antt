-- ===== src/Backend.antt =====
-- The rules of the service that the client mirrors: backend/app/utils/taiwan_calendar.py, the
-- calendar endpoint of backend/app/routers/system_config.py, and the submission gate of
-- backend/app/services/monthly_submission_service.py.
pub mod Calendar
pub mod Gate
pub mod Status
pub mod Day
pub mod Request
pub mod Punch
pub mod History
