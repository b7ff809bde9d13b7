-- ===== src/Pipeline.antt =====
-- internal/pipeline: from the inputs to the collected results.
pub mod Dedup
pub mod Pacer
pub mod Handle
pub mod Crawl
pub mod Source
pub mod Flow
pub mod Samples
