-- ===== src/Net/Eapol/Verify.antt =====
-- What eapol_process_msg1 and eapol_process_msg3 of kernel/lib/eapol.c accept.
use yart_os.Prelude.{
  ℕ, ◌+◌, ◌≤◌, ◌<◌, ◌≡◌, ◌⊎◌, inl, inr, Bool, true, false, arith, Bool-cases, ◌∙◌, sym,
}
use yart_os.Net.Bytes.{at, be16, be64, has_bit, differ, differ-false, differ-equal}
use yart_os.Net.Eapol.{
  Crypto, Supplicant, Verdict, accepted, rejected, smashed, e_keyinfo, e_replay, e_nonce, e_mic,
  e_data, e_dlen, bad_desc, mic_of, ki_ack, ki_mic, ki_encr, take_gtk, process_msg3, process_msg1,
  with_ptk, key_msg_type,
}

-- `f` is a message 3 of length `len` that the authenticator signed with the pairwise key of `s`, in
-- the handshake that `s` takes part in.
pub record Signed (c : Crypto) (f : ℕ → ℕ) (len : ℕ) (s : Supplicant) : Type 0 where
  pub long : 95 ≤ len
  pub short : len ≤ 256
  pub desc : bad_desc f ≡ false
  pub ack : has_bit (be16 f e_keyinfo) ki_ack ≡ true
  pub has_mic : has_bit (be16 f e_keyinfo) ki_mic ≡ true
  pub ready : s.have_ptk ≡ true
  pub mic : (k : ℕ) → k < 16 → f (e_mic + k) ≡ mic_of c s.ptk f len k
  pub nonce : (k : ℕ) → k < 32 → f (e_nonce + k) ≡ s.anonce k

-- The pairwise key in `t` is that of `s`, the flag have_gtk is set, and the length of the group key is
-- 16 if the message says that it carries a wrapped key, else what it was.
pub record Installs (s t : Supplicant) (f : ℕ → ℕ) : Type 0 where
  pub ptk : t.ptk ≡ s.ptk
  pub have_ptk : t.have_ptk ≡ s.have_ptk
  pub have_gtk : t.have_gtk ≡ true
  pub counter : t.replay_counter ≡ be64 f e_replay
  pub group : has_bit (be16 f e_keyinfo) ki_encr ≡ true → t.gtk_len ≡ 16
  pub plain : has_bit (be16 f e_keyinfo) ki_encr ≡ false → t.gtk_len ≡ s.gtk_len

abbrev pub is_accepted : Verdict → Bool
is_accepted (accepted t) = true
is_accepted (rejected t) = false
is_accepted smashed = false

module _ (c : Crypto) (f : ℕ → ℕ) (len : ℕ) (s : Supplicant) where
  process_msg3-eq : Signed c f len s → process_msg3 c f len s ≡ take_gtk c f len s
  unfolding process_msg3
  process_msg3-eq h =
      let m : differ 16 0 (at f e_mic) (mic_of c s.ptk f len) false ≡ false =
        differ-equal 16 0 (at f e_mic) (mic_of c s.ptk f len) (λ k lo hi. h.mic k (omega arith)) in
      let n : differ 32 0 (at f e_nonce) s.anonce false ≡ false =
        differ-equal 32 0 (at f e_nonce) s.anonce (λ k lo hi. h.nonce k (omega arith)) in
      ground (arith, m, n, h.long, h.short, h.desc, h.ack, h.has_mic, h.ready)

  take_gtk-Installs : (t : Supplicant) → take_gtk c f len s ≡ accepted t → Installs s t f
  unfolding take_gtk
  take_gtk-Installs t e = record {
    ptk = ground (arith, e);
    have_ptk = ground (arith, e);
    have_gtk = ground (arith, e);
    counter = ground (arith, e);
    group = λ x. ground (arith, e, x);
    plain = λ x. ground (arith, e, x);
  }

  -- A message 3 that eapol_process_msg3 accepts is at least 95 and at most 256 bytes long, carries
  -- the MIC of its own bytes under the pairwise key and the nonce of the handshake's message 1, and
  -- comes after a message 1; afterwards the pairwise key is the same, the flag have_gtk is set, the
  -- counter is that of the message, and the length of the group key is 16 if the message says that it
  -- carries a wrapped key, else what it was.
  pub process_msg3-Signed :
      (t : Supplicant) → process_msg3 c f len s ≡ accepted t → Signed c f len s × Installs s t f
  unfolding process_msg3
  process_msg3-Signed t e =
      let m : differ 16 0 (at f e_mic) (mic_of c s.ptk f len) false ≡ false = ground (arith, e) in
      let n : differ 32 0 (at f e_nonce) s.anonce false ≡ false = ground (arith, e) in
      let h : Signed c f len s = record {
        long = ground (arith, e);
        short = ground (arith, e);
        desc = ground (arith, e);
        ack = ground (arith, e);
        has_mic = ground (arith, e);
        ready = ground (arith, e);
        mic = λ k lt.
            differ-false 16 0 (at f e_mic) (mic_of c s.ptk f len) m k (omega arith) (omega arith);
        nonce = λ k lt. differ-false 32 0 (at f e_nonce) s.anonce n k (omega arith) (omega arith);
      } in
      (h, take_gtk-Installs t (sym (process_msg3-eq h) ∙ e))

  -- A message 3 that is signed with the pairwise key is accepted, where it has no wrapped key, or one
  -- of 24 bytes that lies in the message and unwraps.
  pub process_msg3-completes :
      Signed c f len s
      → (has_bit (be16 f e_keyinfo) ki_encr ≡ false)
        ⊎ ((be16 f e_dlen ≡ 24)
            × (119 ≤ len)
            × ((c.key_unwrap (at s.ptk 16) (at f e_data) 2).0 ≡ true))
      → is_accepted (process_msg3 c f len s) ≡ true
  unfolding take_gtk
  process_msg3-completes h (inl plain) = rw (process_msg3-eq h) (ground (arith, plain))
  process_msg3-completes h (inr (dl, room, ok)) =
      rw (process_msg3-eq h) (ground (arith, dl, room, ok))

  -- A message 3 that is refused leaves the pairwise key, and whether there is a group key, as they
  -- were.
  pub process_msg3-keeps :
      (t : Supplicant)
      → process_msg3 c f len s ≡ rejected t
      → (t.ptk ≡ s.ptk)
        × (t.have_ptk ≡ s.have_ptk)
        × (t.have_gtk ≡ s.have_gtk)
        × (t.gtk_len ≡ s.gtk_len)
  unfolding process_msg3 take_gtk
  process_msg3-keeps t e =
      (ground (arith, e), ground (arith, e), ground (arith, e), ground (arith, e))

  -- eapol_process_msg1 either refuses a frame and changes nothing, or derives the pairwise key from
  -- the nonce in the frame.
  pub process_msg1-cases :
      (process_msg1 c f len s ≡ rejected s)
      ⊎ ((process_msg1 c f len s ≡ accepted (with_ptk c f s)) × (95 ≤ len))
  unfolding process_msg1
  process_msg1-cases = elim (Bool-cases (is_accepted (process_msg1 c f len s))) [
    | inl e ↦ inr (ground (arith, e), ground (arith, e))
    | inr e ↦ inl (ground (arith, e))
  ]

  pub process_msg1-accepts :
      key_msg_type f len ≡ 1 → process_msg1 c f len s ≡ accepted (with_ptk c f s)
  unfolding process_msg1 key_msg_type
  process_msg1-accepts e = ground (arith, e)
