-- ===== src/Net/Ieee80211/Tests.antt =====
-- Runs of the parsers of kernel/net/ieee80211.c, and the theorems on them at concrete frames.
use yart_os.Prelude.{◌≡◌, refl, true, false, some, List, [], ◌∷◌, length}
use yart_os.Net.Ieee80211.{Bss, parse_ies, ies_loop, take_ie}
use yart_os.Net.Ieee80211.Elements.{Element, encode, buffer, take_all, parse_ies-encode}

abbrev blank : Bss
blank = record {
  bssid = λ i. 0;
  ssid = λ i. 0;
  ssid_len = 0;
  channel = 0;
  rates = λ i. 0;
  n_rates = 0;
  has_rsn = false;
  rsn_cipher = 0;
}

-- the SSID "AB" and channel 6
abbrev two : List Element
two = record { id = 0; body = 0x41 ∷ 0x42 ∷ [] } ∷ record { id = 3; body = 6 ∷ [] } ∷ []

channel_two : (take_all two blank).channel ≡ 6
unfolding take_ie
channel_two = refl

ssid_two : (take_all two blank).ssid_len ≡ 2
unfolding take_ie
ssid_two = refl

-- An element that says it is longer than what is left is refused.
cut_short : parse_ies (buffer (0 ∷ 9 ∷ 0x41 ∷ [])) 3 blank ≡ some (false, blank)
unfolding parse_ies ies_loop
cut_short = refl

parse_ies-encode_example :
    parse_ies (buffer (encode two)) (length (encode two)) blank ≡ some (true, take_all two blank)
parse_ies-encode_example = parse_ies-encode two blank
