-- ===== src/Tests.antt =====
-- The properties at concrete inputs, and runs of the definitions.
mod Names
mod Cache
mod Graph
mod Qos
mod Services
mod Clients
mod Events
mod Waiting
mod Nodes
mod Transfers
mod Serialization
mod Handles
mod Contexts
mod Endpoints
mod Entities
mod Participants
mod Ledger
mod Storage
