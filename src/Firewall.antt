-- ===== src/Firewall.antt =====
-- mvirt-ebpf/programs/src: the packet filter of the network daemon that runs in the kernel: rules,
-- connection tracking, and the verdict of the programs at the two ends of a NIC.
pub mod Rule
pub mod Conn
pub mod Check
pub mod History
pub mod Scan
pub mod Admits
pub mod Replies
pub mod Bits
pub mod Cidr
