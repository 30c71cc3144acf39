-- ===== src/Laptop.antt =====
-- laptop-bridge/src: the program on the laptop, which sends the events of the glasses to the bridge.
pub mod Buffer
pub mod Runtime
pub mod Delivery
mod Examples
