-- ===== src/Tracker/Exchange.antt =====
-- src/tracker_udp.c, exchange: which datagram is taken for the response.
use ps5torrent.Base.{
  ℕ, ◌+◌, ◌*◌, ◌≡◌, ◌↔◌, refl, ap, sym, ◌∙◌, Bool, true, false, not, Option, none, some, List, [],
  ◌∷◌, Bytes, take, if◌then◌else◌, if_not_cases,
}
use ps5torrent.Tracker.Udp.{
  Attempt, Heard, response, failure, expired, listen, after_attempt, exchange_from, exchange,
}
use ps5torrent.Tracker.Listen.{
  Hears, Expires, listen-Hears, Hears-listen, listen-Expires, Expires-listen,
}

module _ (request : Bytes) (action capacity : ℕ) where
  -- Attempt by attempt, each with twice the time of the one before.
  pub data Received : ℕ → List Attempt → Bytes → Type 0 where
    at_once :
        {timeout : ℕ} {a : Attempt} {rest : List Attempt} {reply : Bytes}
        → a.sent ≡ true
        → Hears request action capacity (a.begun + timeout) a.polls reply
        → Received timeout (a ∷ rest) reply
    again :
        {timeout doubled : ℕ} {a : Attempt} {rest : List Attempt} {reply : Bytes}
        → doubled ≡ timeout * 2
        → a.sent ≡ true
        → Expires request action capacity (a.begun + timeout) a.polls
        → Received doubled rest reply
        → Received timeout (a ∷ rest) reply

  attempted :
      (timeout : ℕ) (a : Attempt) (rest : List Attempt) (reply : Bytes) (h : Heard)
      → a.sent ≡ true
      → listen request action capacity (a.begun + timeout) a.polls ≡ h
      → after_attempt h (exchange_from (timeout * 2) request action capacity rest) ≡ some reply
      → (exchange_from (timeout * 2) request action capacity rest ≡ some reply
          → Received (timeout * 2) rest reply)
      → Received timeout (a ∷ rest) reply
  unfolding after_attempt
  attempted timeout a rest reply (response bytes) s e h k =
      at_once s (listen-Hears request action capacity (a.begun + timeout) a.polls reply (cc))
  attempted timeout a rest reply failure s e h k = cc
  attempted timeout a rest reply expired s e h k =
      again refl s (listen-Expires request action capacity (a.begun + timeout) a.polls e) (k h)

  exchange_from-Received :
      (timeout : ℕ) (attempts : List Attempt) (reply : Bytes)
      → exchange_from timeout request action capacity attempts ≡ some reply
      → Received timeout attempts reply
  unfolding exchange_from
  exchange_from-Received timeout [] reply = λ h. cc
  exchange_from-Received timeout (a ∷ rest) reply =
      if_not_cases (λ (r : Option Bytes). r ≡ some reply → Received timeout (a ∷ rest) reply) a.sent
        (λ _ h. cc)
        (λ s h.
          attempted timeout a rest reply
            (listen request action capacity (a.begun + timeout) a.polls) s refl h
            (exchange_from-Received (timeout * 2) rest reply))

  sent_lem : (b : Bool) (r : Option Bytes) → b ≡ true → (if not b then none else r) ≡ r
  sent_lem true r e = refl
  sent_lem false r e = cc

  Received-exchange_from :
      (timeout : ℕ) (attempts : List Attempt) (reply : Bytes)
      → Received timeout attempts reply
      → exchange_from timeout request action capacity attempts ≡ some reply
  unfolding exchange_from after_attempt
  Received-exchange_from timeout [] reply x = elim x [ ]
  Received-exchange_from timeout (a ∷ rest) reply (at_once s h) =
      let more = exchange_from (timeout * 2) request action capacity rest in
      sent_lem a.sent
        (after_attempt (listen request action capacity (a.begun + timeout) a.polls) more) s
      ∙ ap (λ x. after_attempt x more)
          (Hears-listen request action capacity (a.begun + timeout) a.polls reply h)
  Received-exchange_from timeout (a ∷ rest) reply (again {doubled} d s e h) =
      let more = exchange_from (timeout * 2) request action capacity rest in
      sent_lem a.sent
        (after_attempt (listen request action capacity (a.begun + timeout) a.polls) more) s
      ∙ (ap (λ x. after_attempt x more)
            (Expires-listen request action capacity (a.begun + timeout) a.polls e)
          ∙ (ap (λ k. exchange_from k request action capacity rest) (sym d)
              ∙ Received-exchange_from doubled rest reply h))

  -- exchange returns a datagram exactly where, in one of two attempts of 15 and 30 seconds whose
  -- request was sent, it is the first before the deadline that has to do with the request, and it
  -- has the request's transaction, the action that was asked for, and the size of a response; an
  -- attempt is made again only where nothing but signals and datagrams that have nothing to do with
  -- the request came before its deadline, so no error, no rejection and no response that is too short.
  pub exchange_iff :
      (attempts : List Attempt) (reply : Bytes)
      → (exchange request action capacity attempts ≡ some reply)
        ↔ Received 15000 (take 2 attempts) reply
  unfolding exchange
  exchange_iff attempts reply = (
    exchange_from-Received 15000 (take 2 attempts) reply,
    Received-exchange_from 15000 (take 2 attempts) reply,
  )
