-- ===== src/Tests.antt =====
-- The theorems at concrete inputs.
mod Column
mod Sample
mod Functions
mod Requests
mod Rotation
mod Program
mod Undoing
mod Bindings
mod Offer
