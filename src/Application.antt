-- ===== src/Application.antt =====
-- The package `application`: jobs and match windows, ingestion, schedules and administration.
pub mod Jobs
pub mod CommunityRanking
pub mod CommunityStrategies
pub mod CommunityJobs
pub mod CommunityService
pub mod Ingestion
pub mod Bundles
pub mod Administration
pub mod ScheduleBootstrap
