-- ===== src/Download.antt =====
-- The downloader of internal/aliyunpan (source_download.go, source_checkpoint.go): a file is fetched in
-- chunks by several workers, and a sidecar beside the partial file says which bytes are on disk.
pub mod Range
pub mod Link
pub mod Path
pub mod Fetch
pub mod Attempts
pub mod Chunks
pub mod Bitmap
pub mod Checkpoint
pub mod Progress
pub mod Durable
pub mod Tests
