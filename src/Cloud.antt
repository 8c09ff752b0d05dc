-- ===== src/Cloud.antt =====
-- The client of Aliyun Drive (internal/aliyunpan): requests with their retries and token refresh, directory
-- listings, drives and deletions (source_client.go, source_models.go).
pub mod Request
pub mod Drives
pub mod Listing
pub mod Tests
