-- ===== src/Net/Eapol/Tests.antt =====
-- The theorems on kernel/lib/eapol.c, in a handshake over toy cryptography.
use yart_os.Prelude.{◌+◌, ◌≡◌, refl, true}
use yart_os.Net.Bytes.{memcpy, at, be64, differ}
use yart_os.Net.Eapol.{Supplicant, accepted, rejected, process_msg3, take_gtk}
use yart_os.Net.Eapol.Verify.{Signed, Installs, process_msg3-Signed}
use yart_os.Net.Eapol.Sample.{toy, msg1, msg3, fresh}

-- after message 1
abbrev ready : Supplicant
ready = record fresh { anonce = memcpy (λ i. 0) 0 msg1 13 32; ptk = λ i. 5 + i; have_ptk = true }

-- after message 3
abbrev done : Supplicant
done = record ready {
  replay_counter = be64 msg3 5;
  gtk = memcpy (λ i. 0) 0 (at msg3 95) 0 16;
  gtk_len = 16;
  gtk_key_id = 0;
  have_gtk = true;
}

finishes : process_msg3 toy msg3 119 ready ≡ accepted done
unfolding process_msg3 take_gtk differ
finishes = refl

process_msg3-Signed_example : Signed toy msg3 119 ready × Installs ready done msg3
process_msg3-Signed_example = process_msg3-Signed toy msg3 119 ready done finishes

-- A message that is not signed.
refused_msg : process_msg3 toy msg1 119 ready ≡ rejected ready
unfolding process_msg3
refused_msg = refl
