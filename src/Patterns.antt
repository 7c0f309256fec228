-- ===== src/Patterns.antt =====
-- The design patterns whose state has laws of its own, one module for each program.
pub mod PlayerState
pub mod Seesaw
pub mod Memento
pub mod Registry
pub mod Proxy
pub mod Memoize
pub mod Composite
pub mod Builder
pub mod GameSelector
pub mod Bridge
pub mod Visitor
pub mod Facade
pub mod Mediator
