-- ===== src/Tests.antt =====
-- Concrete runs of the model, and the theorems at concrete inputs.
mod Base
mod Files
mod Disk
mod Runs
mod Delivery
mod Storage
mod Engine
mod Conn
mod Provider
mod Tools
mod Token
mod Hub
mod Projection
