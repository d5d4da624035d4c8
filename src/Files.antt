-- ===== src/Files.antt =====
-- The files page (web/atlas.js): what its requests read, its session, and its transfers.
pub mod Reader
pub mod Bodies
pub mod State
pub mod Locks
pub mod Calls
pub mod Download
pub mod Downloads
pub mod Honest
pub mod Answered
pub mod Crumbs
pub mod Drawn
pub mod Redrawn
pub mod Marks
pub mod Listing
pub mod Pages
pub mod Selection
pub mod Load
pub mod Browse
pub mod Access
pub mod Folder
pub mod Menu
pub mod Keys
pub mod Buttons
pub mod Focused
pub mod Fits
pub mod Loads
pub mod Moves
pub mod Picks
pub mod Selects
pub mod Rights
pub mod Foldings
pub mod Transfers
pub mod Parts
pub mod Sendings
pub mod Restores
pub mod Accesses
pub mod Entrances
pub mod Drops
pub mod Reachable
pub mod Lease
pub mod Upload
pub mod Drop
pub mod Store
pub mod Taken
pub mod Stored
pub mod Sent
pub mod Rounds
pub mod Samples
mod Tests
mod Trials
mod Sending
