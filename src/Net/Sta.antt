-- ===== src/Net/Sta.antt =====
-- kernel/net/wifi_sta.c: the state machine of a WPA2 station.
--
-- The cryptographic functions are those of Eapol's parameter, and pbkdf2_hmac_sha1 is one more. A
-- buffer that a function writes is part of what it returns; `none` is -1.
pub mod Steps
pub mod Connect
mod Tests
use yart_os.Prelude.{
  ℕ, zero, suc, ◌+◌, ◌%◌, Bool, true, false, ◌&&◌, not, Option, none, some, if◌then◌else◌, ◌==◌,
  update, u16_mod,
}
use yart_os.Net.Bytes.{memcpy, at}
use yart_os.Net.Eapol.{
  Crypto, Supplicant, Verdict, accepted, rejected, smashed, start, key_msg_type, process_msg1,
  process_msg3, build_msg2, build_msg4,
}
use yart_os.Net.Ieee80211.{
  Bss, build_auth, build_assoc_req, parse_auth_resp, parse_assoc_resp, status_success,
}

-- wifi_sta_state_t
pub data State : Type 0 where
  disconnected : State
  authenticating : State
  associating : State
  associated : State
  connected : State

abbrev pub same_state : State → State → Bool
same_state disconnected disconnected = true
same_state authenticating authenticating = true
same_state associating associating = true
same_state associated associated = true
same_state connected connected = true
same_state x y = false

-- wifi_sta_t
pub record Sta : Type 0 where
  pub state : State
  pub sta_mac : ℕ → ℕ
  pub bssid : ℕ → ℕ
  pub ssid : ℕ → ℕ
  pub channel : ℕ
  pub aid : ℕ
  pub seq : ℕ
  pub eapol : Supplicant
  pub pmk_set : Bool
  pub tk : ℕ → ℕ
  pub tk_installed : Bool

-- memset(s, 0, sizeof *s) on the supplicant
abbrev pub no_supplicant : Supplicant
no_supplicant = record {
  pmk = λ i. 0;
  aa = λ i. 0;
  spa = λ i. 0;
  anonce = λ i. 0;
  snonce = λ i. 0;
  ptk = λ i. 0;
  replay_counter = 0;
  have_ptk = false;
  have_gtk = false;
  gtk = λ i. 0;
  gtk_len = 0;
  gtk_key_id = 0;
}

pub init : (sta_mac : ℕ → ℕ) → Sta
init sta_mac = record {
  state = disconnected;
  sta_mac = memcpy (λ i. 0) 0 sta_mac 0 6;
  bssid = λ i. 0;
  ssid = λ i. 0;
  channel = 0;
  aid = 0;
  seq = 0;
  eapol = no_supplicant;
  pmk_set = false;
  tk = λ i. 0;
  tk_installed = false;
}

pub set_pmk : (pmk : ℕ → ℕ) → Sta → Sta
set_pmk pmk s = record s {
  eapol = record s.eapol { pmk = memcpy s.eapol.pmk 0 pmk 0 32 };
  pmk_set = true;
}

-- pbkdf2_hmac_sha1(passphrase, passphrase_len, ssid, ssid_len, 4096, s->eapol.pmk, 32)
pub set_passphrase :
    (pbkdf2 : (ℕ → ℕ) → ℕ → (ℕ → ℕ) → ℕ → ℕ → ℕ)
    → (passphrase : ℕ → ℕ) → (passphrase_len : ℕ) → (ssid : ℕ → ℕ) → (ssid_len : ℕ) → Sta
    → Sta
set_passphrase pbkdf2 passphrase passphrase_len ssid ssid_len s =
    set_pmk (pbkdf2 passphrase passphrase_len ssid ssid_len) s

pub start_join : Bss → Sta → Sta
start_join bss s =
    let bssid = memcpy s.bssid 0 bss.bssid 0 6 in
    record s {
      bssid = bssid;
      ssid = update (memcpy s.ssid 0 bss.ssid 0 32) 32 0;
      channel = bss.channel;
      seq = 0;
      aid = 0;
      state = authenticating;
      eapol = if s.pmk_set then start s.eapol.pmk bssid s.sta_mac s.eapol else s.eapol;
    }

-- wifi_sta_build_auth: `++s->seq` before the frame is built, and `s->seq++` after.
pub send_auth : (f : ℕ → ℕ) → (cap : ℕ) → Sta → Option (ℕ × (ℕ → ℕ)) × Sta
send_auth f cap s =
    let seq = (s.seq + 1) % u16_mod in
    let sent : Option (ℕ × (ℕ → ℕ)) × Sta = elim (build_auth s.bssid s.sta_mac seq f cap) [
      | none ↦ (none, record s { seq = seq })
      | some out ↦ (some out, record s { seq = (seq + 1) % u16_mod })
    ] in
    if same_state s.state authenticating then sent else (none, s)

-- The flag is true where the function returns 0.
pub on_auth_resp : (f : ℕ → ℕ) → (len : ℕ) → Sta → Bool × Sta
on_auth_resp f len s = elim (parse_auth_resp f len) [
  | none ↦ (false, s)
  | some status ↦
      if status == status_success
      then (true, if same_state s.state authenticating then record s { state = associating } else s)
      else (false, record s { state = disconnected })
]

-- strlen, on a string that ends within the rounds
strlen : (rounds i : ℕ) → (ℕ → ℕ) → ℕ
strlen zero i s = i
strlen (suc n) i s = elim (s i == 0) [ true ↦ i | false ↦ strlen n (i + 1) s ]

-- wifi_sta_build_assoc: start_join ends the SSID at offset 32 at the latest.
pub send_assoc : (f : ℕ → ℕ) → (cap : ℕ) → Sta → Option (ℕ × (ℕ → ℕ))
unfolding strlen
send_assoc f cap s =
    if same_state s.state associating
    then build_assoc_req s.bssid s.sta_mac (strlen 32 0 s.ssid) s.ssid f cap
    else none

pub on_assoc_resp : (f : ℕ → ℕ) → (len : ℕ) → Sta → Bool × Sta
on_assoc_resp f len s = elim (parse_assoc_resp f len) [
  | none ↦ (false, s)
  | some (status, aid) ↦
      let t = record s { aid = aid } in
      if status == status_success
      then (true, if same_state s.state associating then record t { state = associated } else t)
      else (false, record s { state = disconnected })
]

-- what wifi_sta_eapol_in gives back: a reply, nothing to send, a failure, or an overrun of a buffer
pub data Reply : Type 0 where
  reply : ℕ → (ℕ → ℕ) → Reply
  quiet : Reply
  failed : Reply
  overrun : Reply

abbrev pub reply_of : Option (ℕ × (ℕ → ℕ)) → Reply
reply_of none = failed
reply_of (some (n, g)) = reply n g

-- the part for message 1, with the reply in the buffer `out`
pub on_msg1 : Crypto → (f : ℕ → ℕ) → (len : ℕ) → (out : ℕ → ℕ) → (cap : ℕ) → Sta → Reply × Sta
on_msg1 c f len out cap s = elim (process_msg1 c f len s.eapol) [
  | accepted e ↦ (reply_of (build_msg2 c out cap e), record s { eapol = e })
  | rejected e ↦ (failed, record s { eapol = e })
  | smashed ↦ (overrun, s)
]

pub on_msg3 : Crypto → (f : ℕ → ℕ) → (len : ℕ) → (out : ℕ → ℕ) → (cap : ℕ) → Sta → Reply × Sta
on_msg3 c f len out cap s = elim (process_msg3 c f len s.eapol) [
  | accepted e ↦ (
    reply_of (build_msg4 c out cap e),
    record s { eapol = e; tk = memcpy s.tk 0 e.ptk 32 16; tk_installed = true; state = connected },
  )
  | rejected e ↦ (failed, record s { eapol = e })
  | smashed ↦ (overrun, s)
]

pub eapol_in : Crypto → (f : ℕ → ℕ) → (len : ℕ) → (out : ℕ → ℕ) → (cap : ℕ) → Sta → Reply × Sta
eapol_in c f len out cap s =
    if not s.pmk_set
    then (failed, s)
    else if key_msg_type f len == 1
    then on_msg1 c f len out cap s
    else if key_msg_type f len == 3
    then on_msg3 c f len out cap s
    else (quiet, s)
