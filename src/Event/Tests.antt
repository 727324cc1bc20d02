-- ===== src/Event/Tests.antt =====
-- A world with three events, simple lists and trees, and the theorems on the event loop applied to it.
mod Simple
mod Examples
mod Rounds
