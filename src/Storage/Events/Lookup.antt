-- ===== src/Storage/Events/Lookup.antt =====
-- internal/storage/sqlite/events.go: GetEvent on a table into which SaveEvent has put an event.
