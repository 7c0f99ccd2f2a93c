-- ===== src/Net/Ieee80211.antt =====
-- kernel/net/ieee80211.c: the management frames that a station sends and reads.
--
-- A frame is a function of the offset with its length beside it, as in the code; a builder writes
-- into the buffer that it is given. `none` is -1.
pub mod Elements
mod Tests
use yart_os.Prelude.{
  ℕ, zero, suc, ◌+◌, ◌-◌, ◌*◌, ◌/◌, ◌%◌, Bool, true, false, ◌&&◌, Option, none, some, if◌then◌else◌,
  ltb, leb, ◌==◌, update, List, [], ◌∷◌, get_or,
}
use yart_os.Net.Bytes.{memset, memcpy, at}

-- WIFI_ST_ASSOC_REQ, WIFI_ST_ASSOC_RESP, WIFI_ST_PROBE_REQ, WIFI_ST_PROBE_RESP, WIFI_ST_BEACON and
-- WIFI_ST_AUTH
abbrev pub st_assoc_req : ℕ
st_assoc_req = 0

abbrev pub st_assoc_resp : ℕ
st_assoc_resp = 1

abbrev pub st_probe_req : ℕ
st_probe_req = 4

abbrev pub st_probe_resp : ℕ
st_probe_resp = 5

abbrev pub st_beacon : ℕ
st_beacon = 8

abbrev pub st_auth : ℕ
st_auth = 11

-- WIFI_STATUS_SUCCESS
abbrev pub status_success : ℕ
status_success = 0

abbrev pub le16 : (ℕ → ℕ) → ℕ → ℕ
le16 f p = f p + f (p + 1) * 256

abbrev pub put_le16 : (ℕ → ℕ) → ℕ → ℕ → ℕ → ℕ
put_le16 f p v = update (update f p (v % 256)) (p + 1) (v / 256 % 256)

-- the frame control field of a management frame: WIFI_FC_TYPE_MGMT is 0
abbrev pub mgmt_fc : ℕ → ℕ
mgmt_fc subtype = subtype * 16 % 65536

abbrev pub mgmt_hdr : (fc : ℕ) → (da sa bssid : ℕ → ℕ) → (ℕ → ℕ) → ℕ → ℕ
mgmt_hdr fc da sa bssid f =
    let g = memcpy (put_le16 (put_le16 f 0 fc) 2 0) 4 da 0 6 in
    put_le16 (memcpy (memcpy g 10 sa 0 6) 16 bssid 0 6) 22 0

abbrev pub basic_rates : List ℕ
basic_rates = 0x82 ∷ 0x84 ∷ 0x8b ∷ 0x96 ∷ []

abbrev pub rsn_ie : List ℕ
rsn_ie =
    0x30 ∷ 0x14 ∷ 0x01 ∷ 0x00 ∷ 0x00 ∷ 0x0f ∷ 0xac ∷ 0x04 ∷ 0x01 ∷ 0x00 ∷ 0x00 ∷ 0x0f ∷ 0xac ∷ 0x04
    ∷ 0x01 ∷ 0x00 ∷ 0x00 ∷ 0x0f ∷ 0xac ∷ 0x02 ∷ 0x00 ∷ 0x00 ∷ []

-- the elements for the SSID and the rates at offset `p`
abbrev pub put_ies : (p slen : ℕ) → (ssid : ℕ → ℕ) → (ℕ → ℕ) → ℕ → ℕ
put_ies p slen ssid f =
    let g = memcpy (update (update f p 0) (p + 1) slen) (p + 2) ssid 0 slen in
    let h = update (update g (p + 2 + slen) 1) (p + 2 + slen + 1) 4 in
    memcpy h (p + 2 + slen + 2) (λ i. get_or basic_rates i 0) 0 4

-- `slen` is strlen(ssid), and 0 for a null pointer.
abbrev pub ssid_clip : ℕ → ℕ
ssid_clip slen = if ltb 32 slen then 32 else slen

pub build_probe_req :
    (bssid : ℕ → ℕ) → (slen : ℕ) → (ssid : ℕ → ℕ) → (ℕ → ℕ) → (cap : ℕ) → Option (ℕ × (ℕ → ℕ))
build_probe_req bssid slen ssid f cap =
    let n = ssid_clip slen in
    let len = 24 + 2 + n + 2 + 4 in
    let g = mgmt_hdr (mgmt_fc st_probe_req) bssid bssid bssid (memset f 0 0 len) in
    if ltb cap len then none else some (24 + 2 + n + 2 + 4, put_ies 24 n ssid g)

unfoldable pub build_auth :
    (bssid sta : ℕ → ℕ) → (seq : ℕ) → (ℕ → ℕ) → (cap : ℕ) → Option (ℕ × (ℕ → ℕ))
build_auth bssid sta seq f cap =
    let g = mgmt_hdr (mgmt_fc st_auth) bssid sta bssid (memset f 0 0 30) in
    if ltb cap 30
    then none
    else some (30, put_le16 (put_le16 (put_le16 g 24 0) 26 seq) 28 status_success)

pub build_assoc_req :
    (bssid sta : ℕ → ℕ) → (slen : ℕ) → (ssid : ℕ → ℕ) → (ℕ → ℕ) → (cap : ℕ) → Option (ℕ × (ℕ → ℕ))
build_assoc_req bssid sta slen ssid f cap =
    let n = ssid_clip slen in
    let len = 24 + 4 + (2 + n) + (2 + 4) + 22 in
    let g = mgmt_hdr (mgmt_fc st_assoc_req) bssid sta bssid (memset f 0 0 len) in
    let h = put_ies 28 n ssid (put_le16 (put_le16 g 24 0x431) 26 10) in
    if ltb cap len
    then none
    else some (28 + 2 + n + 2 + 4 + 22, memcpy h (28 + 2 + n + 2 + 4) (λ i. get_or rsn_ie i 0) 0 22)

-- wifi_bss_t
pub record Bss : Type 0 where
  pub bssid : ℕ → ℕ
  pub ssid : ℕ → ℕ
  pub ssid_len : ℕ
  pub channel : ℕ
  pub rates : ℕ → ℕ
  pub n_rates : ℕ
  pub has_rsn : Bool
  pub rsn_cipher : ℕ

-- d[8] == 0x00 && d[9] == 0x0f && d[10] == 0xac && d[11] == 0x04
abbrev pub is_ccmp : (ℕ → ℕ) → Bool
is_ccmp d = d 8 == 0 && d 9 == 0x0f && d 10 == 0xac && d 11 == 4

-- what parse_ies does with one element, whose bytes are `d`
pub take_ie : (id elen : ℕ) → (d : ℕ → ℕ) → Bss → Bss
take_ie id elen d b =
    let n = if ltb 32 elen then 32 else elen in
    let m = if ltb 8 elen then 8 else elen in
    if id == 0
    then record b { ssid = update (memcpy b.ssid 0 d 0 n) n 0; ssid_len = n }
    else if id == 3 && leb 1 elen
    then record b { channel = d 0 }
    else if id == 1
    then record b { rates = memcpy b.rates 0 d 0 m; n_rates = m }
    else if id == 48
    then record b {
      has_rsn = true;
      rsn_cipher = if leb 12 elen && is_ccmp d then 4 else b.rsn_cipher;
    }
    else b

-- The loop of parse_ies from offset `i` on, for at most `rounds` elements: `none` is running out of
-- rounds, and the flag is false where the code returns -1.
pub ies_loop : (rounds i : ℕ) → (p : ℕ → ℕ) → (len : ℕ) → Bss → Option (Bool × Bss)
ies_loop zero i p len b = none
ies_loop (suc r) i p len b =
    let rest = ies_loop r (i + 2 + p (i + 1)) p len (take_ie (p i) (p (i + 1)) (at p (i + 2)) b) in
    if ltb len (i + 2)
    then some (true, b)
    else if ltb len (i + 2 + p (i + 1))
    then some (false, b)
    else rest

pub parse_ies : (p : ℕ → ℕ) → (len : ℕ) → Bss → Option (Bool × Bss)
parse_ies p len b = ies_loop (suc len) 0 p len b

-- what parse_mgmt_body sets before it reads the elements
abbrev pub reset_bss : (f : ℕ → ℕ) → Bss → Bss
reset_bss f b = record b {
  bssid = memcpy b.bssid 0 f 16 6;
  ssid_len = 0;
  ssid = update b.ssid 0 0;
  channel = 0;
  n_rates = 0;
  has_rsn = false;
  rsn_cipher = 0;
}

pub parse_mgmt_body : (f : ℕ → ℕ) → (len fixed : ℕ) → Bss → Option (Bool × Bss)
parse_mgmt_body f len fixed b =
    if ltb len (24 + fixed)
    then some (false, b)
    else parse_ies (at f (24 + fixed)) (len - 24 - fixed) (reset_bss f b)

-- wifi_parse_beacon and wifi_parse_probe_resp, which differ in the subtype
pub parse_bss : (subtype : ℕ) → (f : ℕ → ℕ) → (len : ℕ) → Bss → Option (Bool × Bss)
parse_bss subtype f len b =
    if ltb len 24
    then some (false, b)
    else if le16 f 0 == mgmt_fc subtype
    then parse_mgmt_body f len 12 b
    else some (false, b)

-- the status
unfoldable pub parse_auth_resp : (f : ℕ → ℕ) → (len : ℕ) → Option ℕ
parse_auth_resp f len =
    if ltb len 30 then none else if le16 f 0 == mgmt_fc st_auth then some (le16 f 28) else none

-- the status and the association id
unfoldable pub parse_assoc_resp : (f : ℕ → ℕ) → (len : ℕ) → Option (ℕ × ℕ)
parse_assoc_resp f len =
    if ltb len 30
    then none
    else if le16 f 0 == mgmt_fc st_assoc_resp
    then some (le16 f 26, le16 f 28)
    else none
