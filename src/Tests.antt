-- ===== src/Tests.antt =====
-- Runs of the modelled programs on concrete inputs, and the theorems at such inputs.
mod Names
mod Structs
mod Pair
mod Buffers
mod Perf
mod Multi
mod Flow
mod Hash
mod Capture
mod Sniff
mod Epoll
mod Client
mod Dirs
mod Title
mod Children
