-- ===== src/Fortune.antt =====
-- lab_04/part2: fortunes kept in a page of kernel memory behind a file of /proc.
pub mod Buffer
pub mod Cookie
pub mod Seqfile
pub mod Queue
pub mod Lifecycle
mod Tests
