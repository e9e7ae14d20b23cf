-- ===== src/Mesh.antt =====
-- The pod mesh of neural_pods/mesh.py: topics and their filters, the bounds that an envelope
-- carries, and the endpoint that publishes, forwards and receives.
pub mod Topic
pub mod Filters
pub mod Envelope
pub mod Bounds
pub mod Endpoint
pub mod Publish
pub mod Hops
pub mod Chain
pub mod Accounts
mod Tests
