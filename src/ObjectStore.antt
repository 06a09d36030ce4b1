-- ===== src/ObjectStore.antt =====
-- internal/objectstore/store.go: the lifetimes of the URLs that it signs, the names of downloads, and
-- what it makes of the answers of the MinIO client.
pub mod Presign
pub mod Disposition
