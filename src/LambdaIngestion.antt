-- ===== src/LambdaIngestion.antt =====
-- lambda_ingestion.py: the Lambda that persists collected payloads and plans the live schedules.
pub mod Ports
pub mod Payload
pub mod Pages
pub mod Definitions
pub mod Schedules
pub mod Process
pub mod Sample
mod Examples
