-- ===== src/Tests.antt =====
-- Concrete runs of the models, and the theorems at concrete inputs.
mod Images
mod Boards
mod Frames
mod Containers
mod Links
mod Residents
mod Servers
mod Buses
mod Services
mod Inheriting
mod Ports
mod Files
