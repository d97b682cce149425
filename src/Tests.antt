-- ===== src/Tests.antt =====
-- Runs of the models at small inputs, and each theorem applied where its hypotheses hold.
mod Bitmaps
mod Caches
mod RwLocks
mod Strings
mod Threads
mod LinkedLists
mod Inodes
mod Hashes
mod Intqs
