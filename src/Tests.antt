-- ===== src/Tests.antt =====
-- Runs of the definitions on concrete inputs, and the theorems at concrete inputs.
mod Wire
mod Messages
mod Objects
mod Session
mod Start
mod Around
