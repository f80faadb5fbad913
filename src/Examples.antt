-- ===== src/Examples.antt =====
-- The theorems at concrete inputs that meet their hypotheses, and tests of the definitions.
mod Kernels
mod Timers
mod Addrs
mod Slists
mod AttrMaps
mod Links
mod Connects
mod Nets
mod Opens
mod Sends
mod Sockets
