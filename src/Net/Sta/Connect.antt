-- ===== src/Net/Sta/Connect.antt =====
-- How a station of kernel/net/wifi_sta.c becomes connected.
use yart_os.Prelude.{
  ℕ, ◌+◌, ◌-◌, ◌<◌, ◌≤◌, ◌≡◌, ◌≢◌, ◌⊎◌, refl, inl, inr, true, false, some, arith, sym, ◌∙◌, ap,
  subst,
}
use yart_os.Net.Bytes.{at, be16, has_bit}
use yart_os.Net.Eapol.{
  Crypto, Supplicant, process_msg3, key_msg_type, with_ptk, e_keyinfo, e_dlen, e_data, ki_encr,
}
use yart_os.Net.Eapol.Verify.{
  Signed, process_msg3-Signed, process_msg1-accepts, process_msg3-completes,
}
use yart_os.Net.Ieee80211.{Bss, parse_auth_resp, parse_assoc_resp, build_auth}
use yart_os.Net.Sta.{
  Sta, authenticating, associating, associated, connected, start_join, send_auth, on_auth_resp,
  set_pmk, on_assoc_resp, eapol_in, on_msg1, on_msg3,
}
use yart_os.Net.Sta.Steps.{
  Step, pmk, join, auth_sent, auth_heard, assoc_heard, key_heard, KeyOutcome, ignored, derived,
  refused, finished, eapol_in-KeyOutcome, keyed, send_auth-Moves, on_auth_resp-Moves,
  on_assoc_resp-Moves, Verdict-cases,
}

-- The step is wifi_sta_eapol_in of the frame `f` of length `len`.
pub data Hears (c : Crypto) : (s t : Sta) → Step c s t → (ℕ → ℕ) → ℕ → Type 0 where
  heard :
      {s : Sta} (f : ℕ → ℕ) (len : ℕ) (out : ℕ → ℕ) (room : ℕ)
      → Hears c s (eapol_in c f len out room s).1 (key_heard f len out room) f len

-- The step is one of wifi_sta_eapol_in, its frame is a message 3 for the station `s`, signed with its
-- pairwise key, and `t` has the temporal key of that pairwise key.
pub record ConnectedBy (c : Crypto) (s t : Sta) (step : Step c s t) : Type 0 where
  pub frame : ℕ → ℕ
  pub len : ℕ
  pub hears : Hears c s t step frame len
  pub signed : Signed c frame len s.eapol
  pub tk : (k : ℕ) → k < 16 → t.tk k ≡ s.eapol.ptk (32 + k)

temporal : (s : Sta) (u : Supplicant) (k : ℕ) → k < 16 → (keyed u s).tk k ≡ u.ptk (32 + k)
temporal s u k lt = let q : 32 + (k - 0) ≡ 32 + k = omega arith in ground (arith, ap u.ptk q)

KeyOutcome-ConnectedBy :
    {c : Crypto} {f : ℕ → ℕ} {len : ℕ} {s t : Sta} (step : Step c s t)
    → Hears c s t step f len
    → KeyOutcome c f len s t
    → s.state ≢ connected
    → t.state ≡ connected
    → ConnectedBy c s t step
KeyOutcome-ConnectedBy step r (ignored e) n h = absurd (n (sym (ap (λ x. x.state) e) ∙ h))
KeyOutcome-ConnectedBy step r (derived p e) n h = absurd (n (sym (ap (λ x. x.state) e) ∙ h))
KeyOutcome-ConnectedBy step w (refused u r e) n h = absurd (n (sym (ap (λ x. x.state) e) ∙ h))
KeyOutcome-ConnectedBy {c} {f} {len} {s} step w (finished u p r e) n h =
    let (g, i) = process_msg3-Signed c f len s.eapol u r in
    record {
      frame = f;
      len = len;
      hears = w;
      signed = g;
      tk = λ k lt. ap (λ x. x.tk k) e ∙ temporal s u k lt ∙ ap (λ x. x (32 + k)) i.ptk;
    }

-- A step that makes a station connected is wifi_sta_eapol_in of a frame that is a message 3, carries
-- its MIC under the station's pairwise key and the nonce of its handshake, and the temporal key is then
-- the last 16 bytes of that pairwise key.
pub Step-ConnectedBy :
    {c : Crypto} {s t : Sta} (step : Step c s t)
    → s.state ≢ connected
    → t.state ≡ connected
    → ConnectedBy c s t step
unfolding set_pmk start_join
Step-ConnectedBy (pmk k) n h = absurd (n h)
Step-ConnectedBy (join b) n h = absurd (cc h)
Step-ConnectedBy (auth_sent f r) n h = absurd (n ((send_auth-Moves _ f r).state h))
Step-ConnectedBy (auth_heard f len) n h = absurd (n ((on_auth_resp-Moves _ f len).state h))
Step-ConnectedBy (assoc_heard f len) n h = absurd (n ((on_assoc_resp-Moves _ f len).state h))
Step-ConnectedBy {c} {s} (key_heard f len out r) n h =
    KeyOutcome-ConnectedBy (key_heard f len out r) (heard f len out r)
      (eapol_in-KeyOutcome c f len out r s) n h

-- The message has no wrapped key, or one of 24 bytes that lies in it and unwraps.
abbrev pub Unwraps : Crypto → (ℕ → ℕ) → ℕ → Supplicant → Type 0
Unwraps c f len e =
    (has_bit (be16 f e_keyinfo) ki_encr ≡ false)
    ⊎ ((be16 f e_dlen ≡ 24) × (119 ≤ len) × ((c.key_unwrap (at e.ptk 16) (at f e_data) 2).0 ≡ true))

module _ (c : Crypto) (f : ℕ → ℕ) (len : ℕ) (out : ℕ → ℕ) (room : ℕ) (s : Sta) where
  -- A signed message 3 whose key unwraps makes a station with a PMK connected, whatever its state was:
  -- it need not be associated, nor even authenticated.
  pub eapol_in-connects :
      s.pmk_set ≡ true
      → key_msg_type f len ≡ 3
      → Signed c f len s.eapol
      → Unwraps c f len s.eapol
      → (eapol_in c f len out room s).1.state ≡ connected
  unfolding eapol_in on_msg3
  eapol_in-connects p m g u =
      let a = process_msg3-completes c f len s.eapol g u in
      elim (Verdict-cases (process_msg3 c f len s.eapol)) [
        | inl (e, h) ↦ ground (arith, p, m, h)
        | inr (inl (e, h)) ↦ absurd (ground (arith, a, h))
        | inr (inr h) ↦ absurd (ground (arith, a, h))
      ]

-- What wifi_session_join does with the responses to its two requests, after wifi_sta_start_join.
abbrev pub after_assoc : Bss → (fa : ℕ → ℕ) → (la : ℕ) → (fb : ℕ → ℕ) → (lb : ℕ) → Sta → Sta
after_assoc b fa la fb lb s = (on_assoc_resp fb lb (on_auth_resp fa la (start_join b s)).1).1

on_auth_resp-ok :
    (f : ℕ → ℕ) (len : ℕ) (s : Sta)
    → parse_auth_resp f len ≡ some 0
    → s.state ≡ authenticating
    → (on_auth_resp f len s).1 ≡ record s { state = associating }
unfolding on_auth_resp
on_auth_resp-ok f len s x e = ground (arith, x, e)

on_assoc_resp-ok :
    (f : ℕ → ℕ) (len id : ℕ) (s : Sta)
    → parse_assoc_resp f len ≡ some (0, id)
    → s.state ≡ associating
    → (on_assoc_resp f len s).1 ≡ record s { aid = id; state = associated }
unfolding on_assoc_resp
on_assoc_resp-ok f len id s x e = ground (arith, x, e)

after_assoc-eq :
    (b : Bss) (fa : ℕ → ℕ) (la : ℕ) (fb : ℕ → ℕ) (lb id : ℕ) (s : Sta)
    → parse_auth_resp fa la ≡ some 0
    → parse_assoc_resp fb lb ≡ some (0, id)
    → after_assoc b fa la fb lb s ≡ record (start_join b s) { aid = id; state = associated }
unfolding start_join
after_assoc-eq b fa la fb lb id s x y =
    ap (λ t. (on_assoc_resp fb lb t).1) (on_auth_resp-ok fa la (start_join b s) x refl)
    ∙ on_assoc_resp-ok fb lb id (record (start_join b s) { state = associating }) y refl

start_join-pmk_set : (b : Bss) (s : Sta) → (start_join b s).pmk_set ≡ s.pmk_set
unfolding start_join
start_join-pmk_set b s = refl

module _ (c : Crypto) (f : ℕ → ℕ) (len : ℕ) (out : ℕ → ℕ) (room : ℕ) (s : Sta) where
  eapol_in-derives :
      s.pmk_set ≡ true
      → key_msg_type f len ≡ 1
      → (eapol_in c f len out room s).1 ≡ record s { eapol = with_ptk c f s.eapol }
  unfolding eapol_in on_msg1
  eapol_in-derives p m = let a = process_msg1-accepts c f len s.eapol m in ground (arith, p, m, a)

  eapol_in-aid : (eapol_in c f len out room s).1.aid ≡ s.aid
  unfolding eapol_in on_msg1 on_msg3
  eapol_in-aid = ground arith

abbrev Joined : ℕ → Sta → Type 0
Joined id u = (u.state ≡ connected) × (u.aid ≡ id)

-- The two key messages, on the station `z`.
abbrev Ends : Crypto → (ℕ → ℕ) → ℕ → (ℕ → ℕ) → ℕ → (ℕ → ℕ) → ℕ → ℕ → Sta → Type 0
Ends c m₁ l₁ m₃ l₃ out room id z =
    Joined id (eapol_in c m₃ l₃ out room (eapol_in c m₁ l₁ out room z).1).1

module _ (c : Crypto) (b : Bss) (s : Sta) (p : s.pmk_set ≡ true) where
  -- A join that gets its two responses, both with success, then a message 1, and then a message 3
  -- that is signed with the key that message 1 leads to and unwraps, leaves a station with a PMK
  -- connected, under the association id of the second response.
  pub join-completes :
      (fa : ℕ → ℕ) (la : ℕ) (fb : ℕ → ℕ) (lb id : ℕ) (m₁ : ℕ → ℕ) (l₁ : ℕ) (m₃ : ℕ → ℕ) (l₃ : ℕ)
      (out : ℕ → ℕ) (room : ℕ)
      → parse_auth_resp fa la ≡ some 0
      → parse_assoc_resp fb lb ≡ some (0, id)
      → key_msg_type m₁ l₁ ≡ 1
      → key_msg_type m₃ l₃ ≡ 3
      → Signed c m₃ l₃ (with_ptk c m₁ (start_join b s).eapol)
      → Unwraps c m₃ l₃ (with_ptk c m₁ (start_join b s).eapol)
      → let t = (eapol_in c m₁ l₁ out room (after_assoc b fa la fb lb s)).1 in
        let u = (eapol_in c m₃ l₃ out room t).1 in (u.state ≡ connected) × (u.aid ≡ id)
  join-completes fa la fb lb id m₁ l₁ m₃ l₃ out room x y a d g w =
      let j : Sta = record (start_join b s) { aid = id; state = associated } in
      let q : j.pmk_set ≡ true = start_join-pmk_set b s ∙ p in
      let t : Sta = record j { eapol = with_ptk c m₁ j.eapol } in
      subst (λ z. Ends c m₁ l₁ m₃ l₃ out room id z) (sym (after_assoc-eq b fa la fb lb id s x y))
        (subst (λ z. Joined id (eapol_in c m₃ l₃ out room z).1)
          (sym (eapol_in-derives c m₁ l₁ out room j q a))
          (eapol_in-connects c m₃ l₃ out room t q d g w, eapol_in-aid c m₃ l₃ out room t))

-- The first authentication frame after wifi_sta_start_join has sequence number 1, and the next one
-- has 3, where the buffer has room for 30 bytes.
pub send_auth-skips :
    (b : Bss) (s : Sta) (f : ℕ → ℕ) (room : ℕ)
    → 30 ≤ room
    → let t = start_join b s in
      let u = (send_auth f room t).1 in
      ((send_auth f room t).0 ≡ build_auth t.bssid t.sta_mac 1 f room)
      × ((send_auth f room u).0 ≡ build_auth t.bssid t.sta_mac 3 f room)
unfolding send_auth start_join build_auth
send_auth-skips b s f room h = (ground arith, ground arith)
