-- ===== src/Net/Eapol/Reply.antt =====
-- The messages that eapol_build_msg2 and eapol_build_msg4 of kernel/lib/eapol.c build.
use yart_os.Prelude.{
  ℕ, ◌+◌, ◌-◌, ◌/◌, ◌%◌, ◌≤◌, ◌<◌, ◌≡◌, refl, true, false, arith, some, inl, fun_ext, ap, sym, ◌∙◌,
  update, u64_mod,
}
use yart_os.Net.Bytes.{
  memset, memcpy, at, put16, be64, put64, be64-ext, be64-put64, put64-out, differ, differ-equal,
}
use yart_os.Net.Eapol.{
  Crypto, Supplicant, e_keyinfo, e_replay, e_nonce, e_mic, mic_of, sign, key_msg_type, build_msg2,
  build_msg4, msg2_body, msg4_body,
}

-- The MIC is left out of what is signed.
memset-memcpy : (f g : ℕ → ℕ) → memset (memcpy f e_mic g 0 16) e_mic 0 16 ≡ memset f e_mic 0 16
memset-memcpy f g = fun_ext (λ i. ground arith)

-- `g` is a frame with the MIC of its own bytes under `kck`: the test of eapol_process_msg3 and of the
-- access point passes.
abbrev pub Authentic : Crypto → (ℕ → ℕ) → ℕ → (ℕ → ℕ) → Type 0
Authentic c kck len g = differ 16 0 (at g e_mic) (mic_of c kck g len) false ≡ false

sign-at :
    (c : Crypto) (kck f : ℕ → ℕ) (len k : ℕ)
    → k < 16
    → sign c kck len f (e_mic + k) ≡ mic_of c kck f len k
sign-at c kck f len k h =
    let e : e_mic + k - e_mic ≡ k = omega arith in ground (arith, e, ap (mic_of c kck f len) e)

sign-Authentic : (c : Crypto) (kck f : ℕ → ℕ) (len : ℕ) → Authentic c kck len (sign c kck len f)
sign-Authentic c kck f len =
    let g = sign c kck len f in
    differ-equal 16 0 (at g e_mic) (mic_of c kck g len) (λ k lo hi.
      let e = memset-memcpy f (mic_of c kck f len) in
      let x : at g e_mic k ≡ mic_of c kck f len k = sign-at c kck f len k (omega arith) in
      x ∙ sym (ap (λ m. c.eapol_mic kck m len k) e))

-- Outside the MIC the frame is the body that was signed.
sign-body : (c : Crypto) (kck f : ℕ → ℕ) (len i : ℕ) → i < e_mic → sign c kck len f i ≡ f i
sign-body c kck f len i h = ground arith

-- What both messages have in common: their type, and the counter that they carry.
pub record IsReply (c : Crypto) (s : Supplicant) (type len : ℕ) (g : ℕ → ℕ) : Type 0 where
  pub typed : key_msg_type g len ≡ type
  pub signed : Authentic c s.ptk len g
  pub counter : be64 g e_replay ≡ s.replay_counter

bytes-sign :
    (c : Crypto) (kck f : ℕ → ℕ) (len : ℕ) → be64 (sign c kck len f) e_replay ≡ be64 f e_replay
bytes-sign c kck f len =
    be64-ext e_replay (sign c kck len f) f
      (λ k h. sign-body c kck f len (e_replay + k) (omega arith))

typed-sign :
    (c : Crypto) (kck f : ℕ → ℕ) (len n : ℕ) → key_msg_type (sign c kck len f) n ≡ key_msg_type f n
unfolding key_msg_type
typed-sign c kck f len n =
    let a = sign-body c kck f len 0 (omega arith) in
    let b = sign-body c kck f len 1 (omega arith) in
    let d = sign-body c kck f len 2 (omega arith) in rw (a, b, d) refl

-- The first bytes of a body, and its counter.
record IsBody (s : Supplicant) (ki : ℕ) (f : ℕ → ℕ) : Type 0 where
  desc : f 0 ≡ 254
  high : f 1 ≡ ki / 256
  low : f 2 ≡ ki % 256
  counter : be64 f e_replay ≡ s.replay_counter

module _ (s : Supplicant) (f : ℕ → ℕ) (h : s.replay_counter < u64_mod) where
  -- The frame up to the counter.
  head-IsBody :
      (ki len : ℕ)
      → ki < 65536
      → IsBody s ki (
          put64
            (put16 (put16 (update (memset f 0 0 95) 0 254) e_keyinfo ki) 3 len)
            e_replay
            s.replay_counter)
  head-IsBody ki len lt =
      let g = put16 (put16 (update (memset f 0 0 95) 0 254) e_keyinfo ki) 3 len in
      let out = λ (i : ℕ) (x : i < e_replay). put64-out g e_replay s.replay_counter i (inl x) in
      record {
        desc = out 0 (omega arith) ∙ ground arith;
        high = out 1 (omega arith) ∙ ground arith;
        low = out 2 (omega arith) ∙ ground arith;
        counter = be64-put64 g e_replay s.replay_counter h;
      }

  msg4_body-IsBody : IsBody s 0x30a (msg4_body s f)
  unfolding msg4_body
  msg4_body-IsBody = head-IsBody 0x30a 0 (omega arith)

  -- Bytes below the nonce are those of the head.
  msg2_body-IsBody : IsBody s 0x10a (msg2_body s f)
  unfolding msg2_body
  msg2_body-IsBody =
      let b = head-IsBody 0x10a 16 (omega arith) in
      record {
        desc = ground (arith, b.desc);
        high = ground (arith, b.high);
        low = ground (arith, b.low);
        counter = be64-ext e_replay _ _ (λ k lt. ground arith) ∙ b.counter;
      }

  nonce-at : (k : ℕ) → k < 32 → msg2_body s f (e_nonce + k) ≡ s.snonce k
  unfolding msg2_body
  nonce-at k lt = let e : e_nonce + k - e_nonce ≡ k = omega arith in ground (arith, ap s.snonce e)

  sign-IsReply :
      (c : Crypto) (ki type len : ℕ) (g : ℕ → ℕ)
      → IsBody s ki g
      → key_msg_type g len ≡ type
      → IsReply c s type len (sign c s.ptk len g)
  sign-IsReply c ki type len g b t = record {
    typed = typed-sign c s.ptk g len len ∙ t;
    signed = sign-Authentic c s.ptk g len;
    counter = bytes-sign c s.ptk g len ∙ b.counter;
  }

  -- With a pairwise key and room for 117 bytes, eapol_build_msg2 builds a frame that is a message 2,
  -- carries the MIC of its own bytes under the key, the counter of the handshake and the nonce of the
  -- station.
  pub build_msg2-IsReply :
      (c : Crypto) (cap : ℕ)
      → s.have_ptk ≡ true
      → 117 ≤ cap
      → (g : ℕ → ℕ) × (build_msg2 c f cap s ≡ some (117, g))
        × IsReply c s 2 117 g
        × ((k : ℕ) → k < 32 → g (e_nonce + k) ≡ s.snonce k)
  unfolding build_msg2 key_msg_type
  build_msg2-IsReply c cap ready room =
      let b = msg2_body-IsBody in
      (
        sign c s.ptk 117 (msg2_body s f),
        ground (arith, ready),
        sign-IsReply c 0x10a 2 117 (msg2_body s f) b (ground (arith, b.desc, b.high, b.low)),
        λ k lt. sign-body c s.ptk (msg2_body s f) 117 (e_nonce + k) (omega arith) ∙ nonce-at k lt,
      )

  -- With a pairwise key and room for 95 bytes, eapol_build_msg4 builds a frame that is a message 4
  -- and carries the MIC of its own bytes under the key, and the counter of the handshake.
  pub build_msg4-IsReply :
      (c : Crypto) (cap : ℕ)
      → s.have_ptk ≡ true
      → 95 ≤ cap
      → (g : ℕ → ℕ) × (build_msg4 c f cap s ≡ some (95, g)) × IsReply c s 4 95 g
  unfolding build_msg4 key_msg_type
  build_msg4-IsReply c cap ready room =
      let b = msg4_body-IsBody in
      (
        sign c s.ptk 95 (msg4_body s f),
        ground (arith, ready),
        sign-IsReply c 0x30a 4 95 (msg4_body s f) b (ground (arith, b.desc, b.high, b.low)),
      )
