-- ===== src/Tests.antt =====
-- Concrete runs, and each theorem at an input that meets its hypotheses.
mod Fixtures
mod Channels
mod Stacks
mod Suites
mod Tops
mod Texts
mod Pools
mod Files
mod Processes
mod Crowds
mod Mains
mod Meetings
mod Races
mod Gathers
mod Loops
