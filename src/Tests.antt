-- ===== src/Tests.antt =====
-- The theorems at concrete inputs, and runs of the code on small cases.
mod Fixtures
mod Buffers
mod Chats
mod Rooms
mod Echoes
mod Windows
mod WindowsServers
mod WindowsClients
mod Sockets
mod Servers
mod Datagrams
mod Connecting
mod Stopping
mod Endings
mod Threads
mod Shared
mod Mains
