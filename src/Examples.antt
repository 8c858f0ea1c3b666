-- ===== src/Examples.antt =====
-- The models run on small inputs, with simple instances of the crates they call.
mod Crates
mod Bits
mod Packing
mod Selection
mod Initializing
mod Proving
mod Verifying
mod Serving
mod Reading
mod Opening
mod Storing
mod Calling
mod Generating
