-- ===== src/Examples.antt =====
-- The theorems at concrete inputs, by component.
mod Memory
mod Threads
mod Strings
mod Files
mod Devices
mod Spaces
mod Processes
mod Streams
mod Systems
mod Boot
mod Programs
