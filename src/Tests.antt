-- ===== src/Tests.antt =====
-- Runs of the models at concrete inputs.
mod World
mod Flows
mod Events
mod Drafts
mod Policies
mod Caches
mod Feeds
mod Manifests
mod Tenants
mod Callers
mod Names
mod Frames
mod Trees
mod Fabric
mod Objects
