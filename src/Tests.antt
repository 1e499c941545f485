-- ===== src/Tests.antt =====
-- Runs of the definitions at small inputs, with the theorems applied there.
mod Caching
mod Files
mod Trees
mod Packing
mod Removal
mod Blobs
mod Logins
mod Serving
mod Reading
