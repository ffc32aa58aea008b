-- ===== src/Examples.antt =====
-- Tests of the definitions and instances of the theorems at concrete inputs.
mod DeviceAccess
mod SearchPage
mod SearchKeys
mod SearchIndex
mod FileRequests
mod ResultRows
mod Projects
mod BoardTable
mod BoardIoctl
mod Regions
mod Modules
mod Resources
mod Stuck
