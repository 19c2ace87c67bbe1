-- ===== src/Net/Send.antt =====
-- src/net_utils.c, net_send_all. What the calls of send accept is a list of counts, 0 for a closed
-- connection and the end of the list for an error; an interrupted call leaves no trace.
use ps5torrent.Base.{
  ℕ, ◌≡◌, refl, ap, sym, ◌∙◌, ◌++◌, Bool, true, false, List, [], ◌∷◌, Bytes, length, take, drop,
  ◌==◌, if◌then◌else◌, if_cases, take-append-drop, append_assoc, arith,
}

-- The bytes that went out, and whether the result is 0.
unfoldable pub net_send_all : List ℕ → Bytes → Bytes × Bool
net_send_all [] bytes = ([], length bytes == 0)
net_send_all (sent ∷ later) bytes =
    let rest = net_send_all later (drop sent bytes) in
    if length bytes == 0
    then ([], true)
    else if sent == 0
    then ([], false)
    else (take sent bytes ++ rest.0, rest.1)

-- What went out is a part of the bytes from the first on, and all of them on success.
abbrev pub Sends : Bytes → Bytes × Bool → Type 0
Sends bytes (out, done) = (rest : Bytes) × (bytes ≡ out ++ rest) × (done ≡ true → rest ≡ [])

nothing_left : (bytes : Bytes) → (length bytes == 0) ≡ true → bytes ≡ []
nothing_left [] h = refl
nothing_left (c ∷ r) h = absurd (ground arith)

Sends-more :
    (n : ℕ) (bytes : Bytes) (r : Bytes × Bool)
    → Sends (drop n bytes) r
    → Sends bytes (take n bytes ++ r.0, r.1)
Sends-more n bytes (out, done) (rest, e, d) = (
  rest,
  sym (take-append-drop n bytes)
      ∙ (ap (λ t. take n bytes ++ t) e ∙ sym (append_assoc (take n bytes) out rest)),
  d,
)

-- net_send_all sends the bytes in order, however many each call accepts, and reports success only
-- where all of them went out.
pub net_send_all-Sends : (sent : List ℕ) (bytes : Bytes) → Sends bytes (net_send_all sent bytes)
unfolding net_send_all
net_send_all-Sends [] bytes = (bytes, refl, nothing_left bytes)
net_send_all-Sends (n ∷ later) bytes =
    if_cases (Sends bytes) (length bytes == 0) (λ e. (bytes, refl, λ _. nothing_left bytes e))
      (λ _.
        if_cases (Sends bytes) (n == 0) (λ _. (bytes, refl, λ e. cc))
          (λ _.
            Sends-more n bytes (net_send_all later (drop n bytes))
              (net_send_all-Sends later (drop n bytes))))
