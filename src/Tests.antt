-- ===== src/Tests.antt =====
-- Runs of the definitions on small inputs, and the theorems at inputs that meet their hypotheses.
mod AutoNat
mod Dispatcher
mod Event
mod Kademlia
mod PeerBook
mod Pool
mod Switch
mod Rpc
mod Dns
mod Node
mod Builder
mod Circuit
mod Search
