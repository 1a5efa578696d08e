-- ===== src/Tests.antt =====
-- Tests of the models on concrete inputs.
mod Arrays
mod Frames
mod Heaps
mod Screens
mod Drives
mod Machine
mod Disks
mod Folders
mod Allocations
mod Paged
mod Images
mod Requests
