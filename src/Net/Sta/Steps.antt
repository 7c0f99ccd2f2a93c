-- ===== src/Net/Sta/Steps.antt =====
-- The runs of a station of kernel/net/wifi_sta.c, whatever frames it is given.
use yart_os.Prelude.{
  ℕ, ◌≡◌, ◌⊎◌, refl, inl, inr, true, arith, ◌==◌, sym, ◌∙◌, ap, subst, Bool-cases,
}
use yart_os.Net.Bytes.{memcpy}
use yart_os.Net.Eapol.{
  Crypto, Supplicant, Verdict, accepted, rejected, smashed, process_msg3, key_msg_type, start,
  with_ptk,
}
use yart_os.Net.Eapol.Verify.{process_msg3-Signed, process_msg3-keeps, process_msg1-cases}
use yart_os.Net.Ieee80211.{Bss}
use yart_os.Net.Sta.{
  Sta, connected, init, set_pmk, start_join, send_auth, on_auth_resp, on_assoc_resp, eapol_in,
  on_msg1, on_msg3,
}

-- One call of an operation that changes the station.
pub data Step (c : Crypto) : Sta → Sta → Type 0 where
  pmk : {s : Sta} (k : ℕ → ℕ) → Step c s (set_pmk k s)
  join : {s : Sta} (b : Bss) → Step c s (start_join b s)
  auth_sent : {s : Sta} (f : ℕ → ℕ) (cap : ℕ) → Step c s (send_auth f cap s).1
  auth_heard : {s : Sta} (f : ℕ → ℕ) (len : ℕ) → Step c s (on_auth_resp f len s).1
  assoc_heard : {s : Sta} (f : ℕ → ℕ) (len : ℕ) → Step c s (on_assoc_resp f len s).1
  key_heard :
      {s : Sta} (f : ℕ → ℕ) (len : ℕ) (out : ℕ → ℕ) (cap : ℕ)
      → Step c s (eapol_in c f len out cap s).1

pub data Reachable (c : Crypto) : Sta → Type 0 where
  started : (mac : ℕ → ℕ) → Reachable c (init mac)
  stepped : {s t : Sta} → Reachable c s → Step c s t → Reachable c t

-- A connected station has the flags of its keys set, and a pairwise key stands only on a PMK.
pub record IsKeyed (s : Sta) : Type 0 where
  pub keys :
      s.state ≡ connected
      → (s.tk_installed ≡ true) × (s.eapol.have_gtk ≡ true) × (s.eapol.have_ptk ≡ true)
  pub source : s.eapol.have_ptk ≡ true → s.pmk_set ≡ true

init-IsKeyed : (mac : ℕ → ℕ) → IsKeyed (init mac)
unfolding init
init-IsKeyed mac = record { keys = λ e. absurd (cc e); source = λ e. absurd (cc e) }

set_pmk-IsKeyed : {s : Sta} (k : ℕ → ℕ) → IsKeyed s → IsKeyed (set_pmk k s)
unfolding set_pmk
set_pmk-IsKeyed k h = record { keys = h.keys; source = λ e. refl }

start_join-IsKeyed : {s : Sta} (b : Bss) → IsKeyed s → IsKeyed (start_join b s)
unfolding start_join start
start_join-IsKeyed {s} b h = elim (Bool-cases s.pmk_set) [
  | inl e ↦ record { keys = λ x. absurd (cc x); source = λ x. e }
  | inr e ↦ record { keys = λ x. absurd (cc x); source = λ x. h.source (ground (arith, e, x)) }
]

-- `t` is `s` but for its place in the join, and no more connected than `s`.
pub record Moves (s t : Sta) : Type 0 where
  pub eapol : t.eapol ≡ s.eapol
  pub pmk_set : t.pmk_set ≡ s.pmk_set
  pub tk_installed : t.tk_installed ≡ s.tk_installed
  pub state : t.state ≡ connected → s.state ≡ connected

Moves-IsKeyed : {s t : Sta} → Moves s t → IsKeyed s → IsKeyed t
Moves-IsKeyed m h = record {
  keys = λ e.
      let (a, b, c) = h.keys (m.state e) in
      (m.tk_installed ∙ a, ap (λ x. x.have_gtk) m.eapol ∙ b, ap (λ x. x.have_ptk) m.eapol ∙ c);
  source = λ e. m.pmk_set ∙ h.source (sym (ap (λ x. x.have_ptk) m.eapol) ∙ e);
}

pub send_auth-Moves : (s : Sta) (f : ℕ → ℕ) (n : ℕ) → Moves s (send_auth f n s).1
unfolding send_auth
send_auth-Moves s f n = record {
  eapol = ground arith;
  pmk_set = ground arith;
  tk_installed = ground arith;
  state = λ e. ground (arith, e);
}

pub on_auth_resp-Moves : (s : Sta) (f : ℕ → ℕ) (len : ℕ) → Moves s (on_auth_resp f len s).1
unfolding on_auth_resp
on_auth_resp-Moves s f len = record {
  eapol = ground arith;
  pmk_set = ground arith;
  tk_installed = ground arith;
  state = λ e. ground (arith, e);
}

pub on_assoc_resp-Moves : (s : Sta) (f : ℕ → ℕ) (len : ℕ) → Moves s (on_assoc_resp f len s).1
unfolding on_assoc_resp
on_assoc_resp-Moves s f len = record {
  eapol = ground arith;
  pmk_set = ground arith;
  tk_installed = ground arith;
  state = λ e. ground (arith, e);
}

-- The station once message 3 is accepted and leaves the supplicant `e`.
abbrev pub keyed : Supplicant → Sta → Sta
keyed e s = record s {
  eapol = e;
  tk = memcpy s.tk 0 e.ptk 32 16;
  tk_installed = true;
  state = connected;
}

-- What an EAPOL frame does to the station: nothing, a new pairwise key, a refused message 3, or an
-- accepted one.
pub data KeyOutcome (c : Crypto) (f : ℕ → ℕ) (len : ℕ) (s : Sta) (t : Sta) : Type 0 where
  ignored : t ≡ s → KeyOutcome c f len s t
  derived :
      s.pmk_set ≡ true → t ≡ record s { eapol = with_ptk c f s.eapol } → KeyOutcome c f len s t
  refused :
      (e : Supplicant)
      → process_msg3 c f len s.eapol ≡ rejected e
      → t ≡ record s { eapol = e }
      → KeyOutcome c f len s t
  finished :
      (e : Supplicant)
      → s.pmk_set ≡ true
      → process_msg3 c f len s.eapol ≡ accepted e
      → t ≡ keyed e s
      → KeyOutcome c f len s t

pub Verdict-cases :
    (v : Verdict)
    → ((e : Supplicant) × (v ≡ accepted e))
      ⊎ (((e : Supplicant) × (v ≡ rejected e)) ⊎ (v ≡ smashed))
Verdict-cases (accepted e) = inl (e, refl)
Verdict-cases (rejected e) = inr (inl (e, refl))
Verdict-cases smashed = inr (inr refl)

module _ (c : Crypto) (f : ℕ → ℕ) (len : ℕ) (out : ℕ → ℕ) (room : ℕ) (s : Sta) where
  on_msg1-KeyOutcome : s.pmk_set ≡ true → KeyOutcome c f len s (on_msg1 c f len out room s).1
  unfolding on_msg1
  on_msg1-KeyOutcome p = elim (process_msg1-cases c f len s.eapol) [
    | inl e ↦ rw (e, on_msg1) (ignored refl)
    | inr (e, n) ↦ rw (e, on_msg1) (derived p refl)
  ]

  on_msg3-KeyOutcome : s.pmk_set ≡ true → KeyOutcome c f len s (on_msg3 c f len out room s).1
  unfolding on_msg3
  on_msg3-KeyOutcome p = elim (Verdict-cases (process_msg3 c f len s.eapol)) [
    | inl (e, h) ↦ rw (h, on_msg3) (finished e p h refl)
    | inr (inl (e, h)) ↦ rw (h, on_msg3) (refused e h refl)
    | inr (inr h) ↦ rw (h, on_msg3) (ignored refl)
  ]

  pub eapol_in-KeyOutcome : KeyOutcome c f len s (eapol_in c f len out room s).1
  unfolding eapol_in
  eapol_in-KeyOutcome = elim (Bool-cases s.pmk_set) [
    | inr e ↦ ignored (ground (arith, e))
    | inl e ↦ elim (Bool-cases (key_msg_type f len == 1)) [
      | inl x ↦
          let q : (on_msg1 c f len out room s).1 ≡ (eapol_in c f len out room s).1 =
            ground (arith, e, x) in
          subst (KeyOutcome c f len s) q (on_msg1-KeyOutcome e)
      | inr x ↦ elim (Bool-cases (key_msg_type f len == 3)) [
        | inl y ↦
            let q : (on_msg3 c f len out room s).1 ≡ (eapol_in c f len out room s).1 =
              ground (arith, e, x, y) in
            subst (KeyOutcome c f len s) q (on_msg3-KeyOutcome e)
        | inr y ↦ ignored (ground (arith, e, x, y))
      ]
    ]
  ]

IsKeyed-subst : {s t : Sta} → t ≡ s → IsKeyed s → IsKeyed t
IsKeyed-subst e h = subst IsKeyed (sym e) h

KeyOutcome-IsKeyed :
    {c : Crypto} {f : ℕ → ℕ} {len : ℕ} {s t : Sta} → IsKeyed s → KeyOutcome c f len s t → IsKeyed t
KeyOutcome-IsKeyed h (ignored e) = IsKeyed-subst e h
KeyOutcome-IsKeyed h (derived p e) = IsKeyed-subst e (
    unfold with_ptk in
    record { keys = λ x. let (a, b, d) = h.keys x in (a, b, refl); source = λ x. p })
KeyOutcome-IsKeyed {c} {f} {len} {s} h (refused u r e) =
    let (a, b, d, n) = process_msg3-keeps c f len s.eapol u r in
    IsKeyed-subst e (record {
      keys = λ x. let (i, j, k) = h.keys x in (i, d ∙ j, b ∙ k);
      source = λ x. h.source (sym b ∙ x);
    })
KeyOutcome-IsKeyed {c} {f} {len} {s} h (finished u p r e) =
    let (g, i) = process_msg3-Signed c f len s.eapol u r in
    IsKeyed-subst e
      (record { keys = λ x. (refl, i.have_gtk, i.have_ptk ∙ g.ready); source = λ x. p })

Step-IsKeyed : {c : Crypto} {s t : Sta} → Step c s t → IsKeyed s → IsKeyed t
Step-IsKeyed (pmk k) h = set_pmk-IsKeyed k h
Step-IsKeyed (join b) h = start_join-IsKeyed b h
Step-IsKeyed (auth_sent f n) h = Moves-IsKeyed (send_auth-Moves _ f n) h
Step-IsKeyed (auth_heard f len) h = Moves-IsKeyed (on_auth_resp-Moves _ f len) h
Step-IsKeyed (assoc_heard f len) h = Moves-IsKeyed (on_assoc_resp-Moves _ f len) h
Step-IsKeyed {c} {s} (key_heard f len out n) h =
    KeyOutcome-IsKeyed h (eapol_in-KeyOutcome c f len out n s)

-- In every state that a station reaches from its start, whatever frames it is given: if it is
-- connected, its flags tk_installed, have_gtk and have_ptk are set; and have_ptk is set only where a PMK
-- was set.
pub Reachable-IsKeyed : {c : Crypto} {s : Sta} → Reachable c s → IsKeyed s
Reachable-IsKeyed (started mac) = init-IsKeyed mac
Reachable-IsKeyed (stepped r step) = Step-IsKeyed step (Reachable-IsKeyed r)
