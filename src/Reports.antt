-- ===== src/Reports.antt =====
-- apps/reports: the dashboard and the reports.
pub mod Views
pub mod Totals
pub mod Counts
