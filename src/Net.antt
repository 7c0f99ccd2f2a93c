-- ===== src/Net.antt =====
-- kernel/net and kernel/lib: Wi-Fi.
pub mod Bytes
pub mod Eapol
pub mod Ieee80211
pub mod Sta
pub mod X509
