-- ===== src/Entitlement.antt =====
-- src/rhsm/bitstream.py, src/rhsm/huffman.py and src/rhsm/pathtree.py: the content paths of version 3
-- entitlement certificates.
pub mod Bitstream
pub mod Huffman
pub mod PathTree
mod Tests
