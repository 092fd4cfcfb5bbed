-- ===== src/Tests.antt =====
-- Witnesses: the theorems at concrete inputs, with a concrete instance of what the program relies on.
mod Sample
mod Auth
mod Social
mod Sockets
mod Friends
mod Race
mod Views
mod Operation
mod Stream
mod Access
mod Channel
mod Clients
mod Connections
