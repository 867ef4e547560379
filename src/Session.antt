-- ===== src/Session.antt =====
-- session/store.go and session/compaction.go: the in-memory session store. Each call takes the ID
-- that uuid.NewV7 would give, or its error, and the time; times are nanoseconds, 0 the zero time.
pub mod Ids
pub mod Store
pub mod Invariant
pub mod History
pub mod View
pub mod Checkpoints
pub mod Forks
pub mod Tests
