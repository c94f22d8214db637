-- ===== src/Draft.antt =====
-- internal/draft/draft.go: the changes that a user staged and has not proposed, one draft for each
-- user and project, in memory and in one file each.
-- `Edit` is the type of the VM edits, which the store only carries. A map is an association list.
-- A draft file is bytes.
pub mod Entries
pub mod Codec
pub mod Disk
pub mod Store
pub mod Keys
pub mod Persist
