-- ===== src/Tracker/Listen.antt =====
-- src/tracker_udp.c, exchange: what an attempt hears until its deadline.
use ps5torrent.Base.{
  ℕ, ◌<◌, ◌≤◌, ◌≡◌, ◌⊎◌, refl, ap, ◌∙◌, subst, inl, inr, true, false, List, [], ◌∷◌, Bytes, take,
  leb, if◌then◌else◌, if_cases, arith,
}
use ps5torrent.Tracker.Udp.{
  Answer, interrupted, failed, silence, datagram, Poll, Heard, response, expired, judge, on_answer,
  listen,
}
use ps5torrent.Tracker.Judge.{
  IsReply, Foreign, judge_cases, judge-expired, judge_reply, judge-Foreign,
}

module _ (request : Bytes) (action capacity : ℕ) where
  -- The round goes on: a signal, or a datagram that has nothing to do with the request.
  abbrev pub Passed : Poll → Type 0
  Passed p =
      (p.answer ≡ interrupted)
      ⊎ ((bytes : Bytes) × (p.answer ≡ datagram bytes)
          × Foreign request action capacity (take capacity bytes))

  -- The response is the first datagram before the deadline that has to do with the request.
  pub data Hears (deadline : ℕ) : List Poll → Bytes → Type 0 where
    here :
        {p : Poll} {ps : List Poll} {bytes reply : Bytes}
        → p.now < deadline
        → p.answer ≡ datagram bytes
        → take capacity bytes ≡ reply
        → IsReply request action capacity reply
        → Hears deadline (p ∷ ps) reply
    later :
        {p : Poll} {ps : List Poll} {reply : Bytes}
        → p.now < deadline
        → Passed p
        → Hears deadline ps reply
        → Hears deadline (p ∷ ps) reply

  -- No answer came in time: there was none, or the clock passed the deadline, behind rounds that went
  -- on. An error, a rejection or a response that is too short is none of these.
  pub data Expires (deadline : ℕ) : List Poll → Type 0 where
    no_more : Expires deadline []
    passed : {p : Poll} {ps : List Poll} → deadline ≤ p.now → Expires deadline (p ∷ ps)
    unanswered :
        {p : Poll} {ps : List Poll}
        → p.now < deadline
        → p.answer ≡ silence
        → Expires deadline (p ∷ ps)
    waits :
        {p : Poll} {ps : List Poll}
        → p.now < deadline
        → Passed p
        → Expires deadline ps
        → Expires deadline (p ∷ ps)

  heard :
      (deadline : ℕ) (p : Poll) (ps : List Poll) (reply : Bytes) (go_on : Heard) (x : Answer)
      → p.now < deadline
      → p.answer ≡ x
      → on_answer request action capacity x go_on ≡ response reply
      → (go_on ≡ response reply → Hears deadline ps reply)
      → Hears deadline (p ∷ ps) reply
  unfolding on_answer
  heard deadline p ps reply go_on interrupted t e h k = later t (inl e) (k h)
  heard deadline p ps reply go_on failed t e h k = cc
  heard deadline p ps reply go_on silence t e h k = cc
  heard deadline p ps reply go_on (datagram bytes) t e h k =
      elim (judge_cases request action capacity (take capacity bytes) reply go_on h) [
        | inl (same, r) ↦ here t e same (subst (IsReply request action capacity) same r)
        | inr (f, g) ↦ later t (inr (bytes, e, f)) (k g)
      ]

  pub listen-Hears :
      (deadline : ℕ) (ps : List Poll) (reply : Bytes)
      → listen request action capacity deadline ps ≡ response reply
      → Hears deadline ps reply
  unfolding listen
  listen-Hears deadline [] reply = λ h. cc
  listen-Hears deadline (p ∷ ps) reply =
      if_cases (λ (h : Heard). h ≡ response reply → Hears deadline (p ∷ ps) reply)
        (leb deadline p.now) (λ _ h. cc)
        (λ e h.
          heard deadline p ps reply (listen request action capacity deadline ps) p.answer
            (ground arith) refl h (listen-Hears deadline ps reply))

  in_time :
      (deadline now : ℕ) (go_on : Heard)
      → now < deadline
      → (if leb deadline now then expired else go_on) ≡ go_on
  in_time deadline now go_on h = let e : leb deadline now ≡ false = ground arith in rw e refl

  pub Hears-listen :
      (deadline : ℕ) (ps : List Poll) (reply : Bytes)
      → Hears deadline ps reply
      → listen request action capacity deadline ps ≡ response reply
  unfolding listen on_answer
  Hears-listen deadline [] reply x = elim x [ ]
  Hears-listen deadline (p ∷ ps) reply (here {bytes} t e c r) =
      let go_on = listen request action capacity deadline ps in
      in_time deadline p.now (on_answer request action capacity p.answer go_on) t
      ∙ (ap (λ x. on_answer request action capacity x go_on) e
          ∙ (ap (λ b. judge request action b go_on) c
              ∙ judge_reply request action capacity reply go_on r))
  Hears-listen deadline (p ∷ ps) reply (later t (inl e) h) =
      let go_on = listen request action capacity deadline ps in
      in_time deadline p.now (on_answer request action capacity p.answer go_on) t
      ∙ (ap (λ x. on_answer request action capacity x go_on) e ∙ Hears-listen deadline ps reply h)
  Hears-listen deadline (p ∷ ps) reply (later t (inr (bytes, e, f)) h) =
      let go_on = listen request action capacity deadline ps in
      in_time deadline p.now (on_answer request action capacity p.answer go_on) t
      ∙ (ap (λ x. on_answer request action capacity x go_on) e
          ∙ (judge-Foreign request action capacity (take capacity bytes) go_on f
              ∙ Hears-listen deadline ps reply h))

  quiet :
      (deadline : ℕ) (p : Poll) (ps : List Poll) (go_on : Heard) (x : Answer)
      → p.now < deadline
      → p.answer ≡ x
      → on_answer request action capacity x go_on ≡ expired
      → (go_on ≡ expired → Expires deadline ps)
      → Expires deadline (p ∷ ps)
  unfolding on_answer
  quiet deadline p ps go_on interrupted t e h k = waits t (inl e) (k h)
  quiet deadline p ps go_on failed t e h k = cc
  quiet deadline p ps go_on silence t e h k = unanswered t e
  quiet deadline p ps go_on (datagram bytes) t e h k =
      let (f, g) = judge-expired request action capacity (take capacity bytes) go_on h in
      waits t (inr (bytes, e, f)) (k g)

  pub listen-Expires :
      (deadline : ℕ) (ps : List Poll)
      → listen request action capacity deadline ps ≡ expired
      → Expires deadline ps
  unfolding listen
  listen-Expires deadline [] = λ h. no_more
  listen-Expires deadline (p ∷ ps) =
      if_cases (λ (h : Heard). h ≡ expired → Expires deadline (p ∷ ps)) (leb deadline p.now)
        (λ e h. passed (ground arith))
        (λ e h.
          quiet deadline p ps (listen request action capacity deadline ps) p.answer (ground arith)
            refl h (listen-Expires deadline ps))

  pub Expires-listen :
      (deadline : ℕ) (ps : List Poll)
      → Expires deadline ps
      → listen request action capacity deadline ps ≡ expired
  unfolding listen on_answer
  Expires-listen deadline [] x = refl
  Expires-listen deadline (p ∷ ps) (passed late) =
      let e : leb deadline p.now ≡ true = ground arith in rw e refl
  Expires-listen deadline (p ∷ ps) (unanswered t e) =
      let go_on = listen request action capacity deadline ps in
      in_time deadline p.now (on_answer request action capacity p.answer go_on) t
      ∙ ap (λ x. on_answer request action capacity x go_on) e
  Expires-listen deadline (p ∷ ps) (waits t (inl e) h) =
      let go_on = listen request action capacity deadline ps in
      in_time deadline p.now (on_answer request action capacity p.answer go_on) t
      ∙ (ap (λ x. on_answer request action capacity x go_on) e ∙ Expires-listen deadline ps h)
  Expires-listen deadline (p ∷ ps) (waits t (inr (bytes, e, f)) h) =
      let go_on = listen request action capacity deadline ps in
      in_time deadline p.now (on_answer request action capacity p.answer go_on) t
      ∙ (ap (λ x. on_answer request action capacity x go_on) e
          ∙ (judge-Foreign request action capacity (take capacity bytes) go_on f
              ∙ Expires-listen deadline ps h))
