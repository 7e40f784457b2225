-- ===== src/Tests.antt =====
-- Runs of the code on small inputs, and the theorems applied to them.
mod News
mod Parts
mod Charsets
mod Tables
mod Mail
mod Threads
mod Names
mod Scans
mod Marks
mod Configs
