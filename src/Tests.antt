-- ===== src/Tests.antt =====
-- Runs on concrete inputs.
mod Wire
mod Records
mod Fetching
mod Hosting
mod Handling
mod Running
mod Serving
mod Storing
