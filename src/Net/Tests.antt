-- ===== src/Net/Tests.antt =====
-- Runs of the URL encoding of src/net_utils.c.
use ps5torrent.Base.{◌≡◌, refl, arith, [], ◌∷◌, ◌++◌, Bytes, codes}
use ps5torrent.Net.Send.{Sends, net_send_all, net_send_all-Sends}
use ps5torrent.Net.Url.{net_url_encode, http_url_decode, http_url_decode-net_url_encode}

abbrev mixed : Bytes
mixed = codes "a+" ++ 200 ∷ []

http_url_decode-net_url_encode_example : http_url_decode (net_url_encode mixed) ≡ mixed
http_url_decode-net_url_encode_example = http_url_decode-net_url_encode mixed (omega arith)

net_send_all-Sends_example : Sends (codes "abc") (net_send_all (2 ∷ 5 ∷ []) (codes "abc"))
net_send_all-Sends_example = net_send_all-Sends (2 ∷ 5 ∷ []) (codes "abc")

-- An escaped zero ends the string, and so does an escape that is no number.
zero_ends : http_url_decode (codes "a%00b") ≡ codes "a"
unfolding http_url_decode
zero_ends = refl

no_number : http_url_decode (codes "a%zzb") ≡ codes "a"
unfolding http_url_decode
no_number = refl
