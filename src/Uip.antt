-- ===== src/Uip.antt =====
-- The TCP/IP stack of src/uip/uip.c, in the configuration of src/uip-conf.h: IPv4, big endian, no
-- UDP, no reassembly, active open, statistics and logging, UIP_LLH_LEN 0.
pub mod Config
pub mod Seq
pub mod Chksum
pub mod State
pub mod Send
pub mod Options
pub mod Ports
pub mod Input
pub mod States
pub mod Process
