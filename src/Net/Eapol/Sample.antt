-- ===== src/Net/Eapol/Sample.antt =====
-- A handshake over a toy of the cryptographic functions, for the tests of the Wi-Fi code.
use yart_os.Prelude.{ℕ, ◌+◌, ◌%◌, refl, true, false, ◌&&◌, if◌then◌else◌, ltb, leb, ◌==◌, arith}
use yart_os.Net.Eapol.{Crypto, Supplicant, with_ptk}
use yart_os.Net.Eapol.Verify.{Signed}

abbrev pub toy : Crypto
toy = record {
  ptk_derive = λ pmk aa spa anonce snonce i. anonce 0 + i;
  eapol_mic = λ kck f len k. (kck 0 + f 0 + len) % 256;
  key_unwrap = λ kek ct n. (true, ct);
}

abbrev pub msg1 : ℕ → ℕ
msg1 i = if i == 0 then 2 else if i == 1 then 0 else if i == 2 then 0x8a else 5

abbrev pub msg3 : ℕ → ℕ
msg3 i =
    if i == 0
    then 2
    else if i == 1
    then 0x13
    else if i == 2
    then 0xca
    else if leb 77 i && ltb i 93
    then 126
    else if i == 93
    then 0
    else if i == 94
    then 24
    else 5

abbrev pub fresh : Supplicant
fresh = record {
  pmk = λ i. 1;
  aa = λ i. 2;
  spa = λ i. 3;
  anonce = λ i. 0;
  snonce = λ i. 0;
  ptk = λ i. 0;
  replay_counter = 0;
  have_ptk = false;
  have_gtk = false;
  gtk = λ i. 0;
  gtk_len = 0;
  gtk_key_id = 0;
}

pub msg3-Signed : (s : Supplicant) → Signed toy msg3 119 (with_ptk toy msg1 s)
unfolding with_ptk
msg3-Signed s = record {
  long = omega arith;
  short = omega arith;
  desc = refl;
  ack = refl;
  has_mic = refl;
  ready = refl;
  mic = λ k h. ground arith;
  nonce = λ k h. ground arith;
}
