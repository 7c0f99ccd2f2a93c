-- ===== src/Net/Eapol.antt =====
-- kernel/lib/eapol.c: the station's side of the WPA2 four-way handshake.
--
-- The cryptographic functions are a parameter: `Crypto` has those of kernel/lib/wpa.c and the key
-- unwrapping. A byte buffer is a function of the offset; the frame's length goes beside it.
pub mod Verify
pub mod Reply
pub mod Sample
mod Tests
use yart_os.Prelude.{
  ℕ, zero, suc, ◌+◌, ◌-◌, ◌*◌, ◌/◌, ◌%◌, Bool, true, false, ◌&&◌, ◌||◌, not, Option, none, some,
  if◌then◌else◌, ltb, leb, ◌==◌, update, List, [], ◌∷◌, get_or,
}
use yart_os.Net.Bytes.{memset, memcpy, at, be16, put16, be64, put64, has_bit, differ}

-- E_KEYINFO, E_REPLAY, E_NONCE, E_MIC, E_DLEN and E_DATA
abbrev pub e_keyinfo : ℕ
e_keyinfo = 1

abbrev pub e_replay : ℕ
e_replay = 5

abbrev pub e_nonce : ℕ
e_nonce = 13

abbrev pub e_mic : ℕ
e_mic = 77

abbrev pub e_dlen : ℕ
e_dlen = 93

abbrev pub e_data : ℕ
e_data = 95

-- WPA_KI_ACK, WPA_KI_MIC, WPA_KI_SECURE and WPA_KI_ENCR
abbrev pub ki_ack : ℕ
ki_ack = 0x80

abbrev pub ki_mic : ℕ
ki_mic = 0x100

abbrev pub ki_secure : ℕ
ki_secure = 0x200

abbrev pub ki_encr : ℕ
ki_encr = 0x1000

-- wpa_ptk_derive(pmk, aa, spa, anonce, snonce), wpa_eapol_mic(kck, frame, len), and
-- aes_key_unwrap(kek, ct, n), which says whether the check value is right and gives the plaintext
pub record Crypto : Type 0 where
  pub ptk_derive : (pmk aa spa anonce snonce : ℕ → ℕ) → ℕ → ℕ
  pub eapol_mic : (kck : ℕ → ℕ) → (frame : ℕ → ℕ) → (len : ℕ) → ℕ → ℕ
  pub key_unwrap : (kek ct : ℕ → ℕ) → (n : ℕ) → Bool × (ℕ → ℕ)

-- eapol_supplicant_t
pub record Supplicant : Type 0 where
  pub pmk : ℕ → ℕ
  pub aa : ℕ → ℕ
  pub spa : ℕ → ℕ
  pub anonce : ℕ → ℕ
  pub snonce : ℕ → ℕ
  pub ptk : ℕ → ℕ
  pub replay_counter : ℕ
  pub have_ptk : Bool
  pub have_gtk : Bool
  pub gtk : ℕ → ℕ
  pub gtk_len : ℕ
  pub gtk_key_id : ℕ

-- `smashed` is a copy of more than 256 bytes into the buffer of mic_frame.
pub data Verdict : Type 0 where
  accepted : Supplicant → Verdict
  rejected : Supplicant → Verdict
  smashed : Verdict

-- f[E_DESC] != 254 && f[E_DESC] != 2
abbrev pub bad_desc : (ℕ → ℕ) → Bool
bad_desc f = not (f 0 == 254) && not (f 0 == 2)

-- what mic_frame computes on a frame of at most 256 bytes
abbrev pub mic_of : Crypto → (ℕ → ℕ) → (ℕ → ℕ) → ℕ → ℕ → ℕ
mic_of c kck f len = c.eapol_mic kck (memset f e_mic 0 16) len

-- eapol_key_msg_type: 1 to 4, or 0 for any other frame
unfoldable pub key_msg_type : (ℕ → ℕ) → ℕ → ℕ
key_msg_type f len =
    let ki = be16 f e_keyinfo in
    let ack = has_bit ki ki_ack in
    let mic = has_bit ki ki_mic in
    if ltb len 95
    then 0
    else if bad_desc f
    then 0
    else if ack && not mic
    then 1
    else if not ack && mic
    then (if has_bit ki ki_secure then 4 else 2)
    else if ack && mic
    then 3
    else 0

-- eapol_init
unfoldable pub start : (pmk aa spa : ℕ → ℕ) → Supplicant → Supplicant
start pmk aa spa s = record s {
  pmk = pmk;
  aa = aa;
  spa = spa;
  replay_counter = 0;
  have_ptk = false;
  have_gtk = false;
  gtk_len = 0;
  gtk_key_id = 0;
  anonce = λ i. 0;
  snonce = λ i. 0;
  ptk = λ i. 0;
}

-- for (i = 0; i < 32; i++) s->snonce[i] = (u8)(0x22 + i)
abbrev pub fixed_snonce : (ℕ → ℕ) → ℕ → ℕ
fixed_snonce old i = if ltb i 32 then 0x22 + i else old i

-- the supplicant after an eapol_process_msg1 that returns 0
unfoldable pub with_ptk : Crypto → (ℕ → ℕ) → Supplicant → Supplicant
with_ptk c f s =
    let anonce = memcpy s.anonce 0 f e_nonce 32 in
    let snonce = fixed_snonce s.snonce in
    record s {
      anonce = anonce;
      replay_counter = be64 f e_replay;
      snonce = snonce;
      ptk = c.ptk_derive s.pmk s.aa s.spa anonce snonce;
      have_ptk = true;
    }

pub process_msg1 : Crypto → (ℕ → ℕ) → ℕ → Supplicant → Verdict
process_msg1 c f len s =
    let ki = be16 f e_keyinfo in
    if ltb len 95
    then rejected s
    else if bad_desc f
    then rejected s
    else if not (has_bit ki ki_ack)
    then rejected s
    else if has_bit ki ki_mic
    then rejected s
    else accepted (with_ptk c f s)

-- eapol_process_msg3 from the test of WPA_KI_ENCR on
pub take_gtk : Crypto → (ℕ → ℕ) → ℕ → Supplicant → Verdict
take_gtk c f len s =
    let ki = be16 f e_keyinfo in
    let dl = be16 f e_dlen in
    let t = record s { replay_counter = be64 f e_replay } in
    let (ok, key) = c.key_unwrap (at s.ptk 16) (at f e_data) (dl / 8 - 1) in
    let u = record t { gtk = memcpy s.gtk 0 key 0 16 } in
    if not (has_bit ki ki_encr)
    then accepted (record t { have_gtk = true })
    else if not (dl == 24) || ltb len (95 + dl)
    then rejected t
    else if ok
    then accepted (record u { gtk_len = 16; gtk_key_id = ki / 16 % 4; have_gtk = true })
    else rejected u

pub process_msg3 : Crypto → (ℕ → ℕ) → ℕ → Supplicant → Verdict
process_msg3 c f len s =
    let ki = be16 f e_keyinfo in
    if ltb len 95 || not s.have_ptk
    then rejected s
    else if bad_desc f
    then rejected s
    else if not (has_bit ki ki_mic) || not (has_bit ki ki_ack)
    then rejected s
    else if ltb 256 len
    then smashed
    else if differ 16 0 (at f e_mic) (mic_of c s.ptk f len) false
    then rejected s
    else if differ 32 0 (at f e_nonce) s.anonce false
    then rejected s
    else take_gtk c f len s

-- the RSN element that message 2 carries
abbrev pub rsn_ie : List ℕ
rsn_ie =
    0x30 ∷ 0x14 ∷ 0x01 ∷ 0x00 ∷ 0x00 ∷ 0x0f ∷ 0xac ∷ 0x04 ∷ 0x01 ∷ 0x00 ∷ 0x00 ∷ 0x0f ∷ 0xac ∷ 0x04
    ∷ 0x01 ∷ 0x00 ∷ 0x00 ∷ 0x0f ∷ 0xac ∷ 0x02 ∷ 0x00 ∷ 0x00 ∷ []

-- mic_frame(s->ptk, f, len, mic); memcpy(f + E_MIC, mic, 16)
abbrev pub sign : Crypto → (ℕ → ℕ) → ℕ → (ℕ → ℕ) → ℕ → ℕ
sign c kck len f = memcpy f e_mic (mic_of c kck f len) 0 16

-- message 2 before it is signed; WPA_KI_VERSION | WPA_KI_TYPE | WPA_KI_MIC is 0x10a
pub msg2_body : Supplicant → (ℕ → ℕ) → ℕ → ℕ
msg2_body s f =
    let f₁ = update (memset f 0 0 95) 0 254 in
    let f₂ = put64 (put16 (put16 f₁ e_keyinfo 0x10a) 3 16) e_replay s.replay_counter in
    let f₃ = put16 (memcpy f₂ e_nonce s.snonce 0 32) e_dlen 22 in
    memcpy f₃ e_data (λ i. get_or rsn_ie i 0) 0 22

-- message 4 before it is signed; with WPA_KI_SECURE it is 0x30a
pub msg4_body : Supplicant → (ℕ → ℕ) → ℕ → ℕ
msg4_body s f =
    let f₁ = update (memset f 0 0 95) 0 254 in
    put64 (put16 (put16 f₁ e_keyinfo 0x30a) 3 0) e_replay s.replay_counter

-- The length and the frame in the buffer that held `f`; `none` is -1.
pub build_msg2 : Crypto → (ℕ → ℕ) → (cap : ℕ) → Supplicant → Option (ℕ × (ℕ → ℕ))
build_msg2 c f cap s =
    if not s.have_ptk || ltb cap 117 then none else some (117, sign c s.ptk 117 (msg2_body s f))

pub build_msg4 : Crypto → (ℕ → ℕ) → (cap : ℕ) → Supplicant → Option (ℕ × (ℕ → ℕ))
build_msg4 c f cap s =
    if not s.have_ptk || ltb cap 95 then none else some (95, sign c s.ptk 95 (msg4_body s f))
