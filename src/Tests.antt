-- ===== src/Tests.antt =====
-- Concrete libraries, and the theorems at concrete inputs.
mod Json
mod Platform
mod Actors
mod Sessions
mod Life
mod Settling
mod Order
mod Threads
mod Workers
mod Tokens
mod Delivery
mod Refresh
mod Documents
mod Services
mod Postgres
mod Tables
mod Answers
mod Http
mod History
mod Startup
mod Presentation
mod Old
