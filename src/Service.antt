-- ===== src/Service.antt =====
-- backend/app/services/replays/service.py: what a request does, as calls on the tables and the
-- object store. Each repository call is one transaction, and other sessions may run theirs before
-- it: `others n` is what they do before the `n`-th.
pub mod Calls
pub mod Enqueue
pub mod Enqueued
pub mod Complete
pub mod Manage
pub mod Create
pub mod Runs
pub mod Requests
pub mod Returns
pub mod Deletes
pub mod Promise
pub mod Access
pub mod Retried
