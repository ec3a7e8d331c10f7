-- ===== src/Util.antt =====
-- src/utils/util_func.c.
pub mod Words
pub mod Os
pub mod Text
pub mod Hosts
