-- ===== src/Net/Sta/Tests.antt =====
-- The theorems on kernel/net/wifi_sta.c, in a join over toy cryptography.
use yart_os.Prelude.{ℕ, ◌+◌, ◌≡◌, refl, inr, some, true, false, arith, if◌then◌else◌, ◌==◌}
use yart_os.Net.Eapol.{with_ptk, key_msg_type}
use yart_os.Net.Eapol.Sample.{toy, msg1, msg3, fresh, msg3-Signed}
use yart_os.Net.Ieee80211.{Bss, parse_auth_resp, parse_assoc_resp}
use yart_os.Net.Sta.{Sta, authenticating, connected, init, set_pmk, start_join, eapol_in}
use yart_os.Net.Sta.Steps.{IsKeyed, pmk, join, key_heard, started, stepped, Reachable-IsKeyed}
use yart_os.Net.Sta.Connect.{
  ConnectedBy, Step-ConnectedBy, eapol_in-connects, after_assoc, join-completes,
}

abbrev bss : Bss
bss = record {
  bssid = λ i. 0x11 + i;
  ssid = λ i. 0x41;
  ssid_len = 32;
  channel = 6;
  rates = λ i. 0;
  n_rates = 0;
  has_rsn = true;
  rsn_cipher = 4;
}

-- a station that has its pairwise key but has not yet authenticated
abbrev early : Sta
early = record {
  state = authenticating;
  sta_mac = λ i. i;
  bssid = bss.bssid;
  ssid = λ i. 0;
  channel = 6;
  aid = 0;
  seq = 0;
  eapol = with_ptk toy msg1 fresh;
  pmk_set = true;
  tk = λ i. 0;
  tk_installed = false;
}

Reachable-IsKeyed_example : IsKeyed (start_join bss (set_pmk (λ i. 1) (init (λ i. i))))
Reachable-IsKeyed_example =
    Reachable-IsKeyed {c = toy} (stepped (stepped (started (λ i. i)) (pmk (λ i. 1))) (join bss))

typed1 : key_msg_type msg1 95 ≡ 1
unfolding key_msg_type
typed1 = refl

typed3 : key_msg_type msg3 119 ≡ 3
unfolding key_msg_type
typed3 = refl

ends : (eapol_in toy msg3 119 (λ i. 0) 512 early).1.state ≡ connected
ends =
    eapol_in-connects toy msg3 119 (λ i. 0) 512 early refl typed3 (msg3-Signed fresh)
      (inr (refl, omega arith, refl))

Step-ConnectedBy_example :
    ConnectedBy toy early
      (eapol_in toy msg3 119 (λ i. 0) 512 early).1
      (key_heard msg3 119 (λ i. 0) 512)
Step-ConnectedBy_example =
    Step-ConnectedBy {c = toy} {s = early} (key_heard msg3 119 (λ i. 0) 512) (λ e. cc e) ends

-- Responses of 30 bytes, with success and association id 1.
abbrev auth_resp : ℕ → ℕ
auth_resp i = if i == 0 then 0xb0 else 0

abbrev assoc_resp : ℕ → ℕ
assoc_resp i = if i == 0 then 0x10 else if i == 28 then 1 else 0

auth_parsed : parse_auth_resp auth_resp 30 ≡ some 0
unfolding parse_auth_resp
auth_parsed = refl

assoc_parsed : parse_assoc_resp assoc_resp 30 ≡ some (0, 1)
unfolding parse_assoc_resp
assoc_parsed = refl

-- a station that has a PMK
abbrev with_pmk : Sta
with_pmk = record early { eapol = fresh }

join-completes_example :
    let t =
      (eapol_in toy msg1 95 (λ i. 0) 512 (after_assoc bss auth_resp 30 assoc_resp 30 with_pmk)).1 in
    let u = (eapol_in toy msg3 119 (λ i. 0) 512 t).1 in (u.state ≡ connected) × (u.aid ≡ 1)
join-completes_example =
    join-completes toy bss with_pmk refl auth_resp 30 assoc_resp 30 1 msg1 95 msg3 119 (λ i. 0) 512
      auth_parsed assoc_parsed typed1 typed3 (msg3-Signed (start_join bss with_pmk).eapol)
      (inr (refl, omega arith, refl))
