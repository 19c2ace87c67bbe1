-- ===== src/Tracker/Judge.antt =====
-- src/tracker_udp.c, exchange: the tests of a datagram.
use ps5torrent.Base.{
  ℕ, ◌<◌, ◌≤◌, ◌≡◌, ◌≢◌, ◌⊎◌, refl, inl, inr, true, false, not, ◌||◌, Bytes, length, drop, ltb,
  ◌==◌, if_cases, if_not_cases, arith, Bool-cases,
}
use ps5torrent.Base.Endian.{decode32}
use ps5torrent.Tracker.Udp.{Heard, response, expired, least_size, judge}

module _ (request : Bytes) (action capacity : ℕ) where
  -- A response to the request: its transaction, its action, and its least size.
  pub record IsReply (bytes : Bytes) : Type 0 where
    pub transaction : decode32 (drop 4 bytes) ≡ decode32 (drop 12 request)
    pub acts : decode32 bytes ≡ action
    pub accepted : action ≢ 3
    pub large : 8 ≤ length bytes
    pub whole : least_size action ≤ length bytes

  -- A datagram that has nothing to do with the request.
  abbrev pub Foreign : Bytes → Type 0
  Foreign bytes =
      (length bytes < 8)
      ⊎ (decode32 (drop 4 bytes) ≢ decode32 (drop 12 request))
      ⊎ ((decode32 bytes ≢ 3) × (decode32 bytes ≢ action))

  pub judge_cases :
      (bytes reply : Bytes) (go_on : Heard)
      → judge request action bytes go_on ≡ response reply
      → ((bytes ≡ reply) × IsReply bytes) ⊎ (Foreign bytes × (go_on ≡ response reply))
  unfolding judge
  judge_cases bytes reply go_on =
      let Judged : Heard → Type 0 = λ h.
        h ≡ response reply
        → ((bytes ≡ reply) × IsReply bytes) ⊎ (Foreign bytes × (go_on ≡ response reply)) in
      if_cases Judged
        (ltb (length bytes) 8 || not (decode32 (drop 4 bytes) == decode32 (drop 12 request)))
        (λ e h. inr (
          elim (Bool-cases (ltb (length bytes) 8)) [
            | inl short ↦ inl (ground arith)
            | inr long ↦ inr (inl (ground arith))
          ],
          h,
        ))
        (λ e.
          if_cases Judged (decode32 bytes == 3) (λ _ h. cc)
            (λ not3.
              if_not_cases Judged (decode32 bytes == action)
                (λ other h. inr (inr (inr (ground arith, ground arith)), h))
                (λ same.
                  if_cases Judged (ltb (length bytes) (least_size action)) (λ _ h. cc)
                    (λ big h. inl (
                      cc,
                      record {
                        transaction = ground arith;
                        acts = ground arith;
                        accepted = ground arith;
                        large = ground arith;
                        whole = ground arith;
                      },
                    )))))

  pub judge-expired :
      (bytes : Bytes) (go_on : Heard)
      → judge request action bytes go_on ≡ expired
      → Foreign bytes × (go_on ≡ expired)
  unfolding judge
  judge-expired bytes go_on =
      let Judged : Heard → Type 0 = λ h. h ≡ expired → Foreign bytes × (go_on ≡ expired) in
      if_cases Judged
        (ltb (length bytes) 8 || not (decode32 (drop 4 bytes) == decode32 (drop 12 request)))
        (λ e h. (
          elim (Bool-cases (ltb (length bytes) 8)) [
            | inl short ↦ inl (ground arith)
            | inr long ↦ inr (inl (ground arith))
          ],
          h,
        ))
        (λ e.
          if_cases Judged (decode32 bytes == 3) (λ _ h. cc)
            (λ not3.
              if_not_cases Judged (decode32 bytes == action)
                (λ other h. (inr (inr (ground arith, ground arith)), h))
                (λ same.
                  if_cases Judged (ltb (length bytes) (least_size action)) (λ _ h. cc)
                    (λ big h. cc))))

  pub judge_reply :
      (bytes : Bytes) (go_on : Heard)
      → IsReply bytes
      → judge request action bytes go_on ≡ response bytes
  unfolding judge
  judge_reply bytes go_on r =
      let a : (ltb (length bytes) 8 || not (decode32 (drop 4 bytes) == decode32 (drop 12 request)))
          ≡ false =
        ground (arith, r.transaction, r.large) in
      let b : (decode32 bytes == 3) ≡ false = ground (arith, r.acts, r.accepted) in
      let c : (decode32 bytes == action) ≡ true = ground (arith, r.acts) in
      let d : ltb (length bytes) (least_size action) ≡ false = ground (arith, r.whole) in
      rw (a, b, c, d) refl

  pub judge-Foreign :
      (bytes : Bytes) (go_on : Heard) → Foreign bytes → judge request action bytes go_on ≡ go_on
  unfolding judge
  judge-Foreign bytes go_on (inl short) =
      let a : ltb (length bytes) 8 ≡ true = ground arith in rw a refl
  judge-Foreign bytes go_on (inr (inl other)) =
      let a : (decode32 (drop 4 bytes) == decode32 (drop 12 request)) ≡ false = ground arith in
      if_cases (λ (h : Heard). h ≡ go_on)
        (ltb (length bytes) 8 || not (decode32 (drop 4 bytes) == decode32 (drop 12 request)))
        (λ _. refl) (λ e. absurd (ground arith))
  judge-Foreign bytes go_on (inr (inr (not3, other))) =
      let b : (decode32 bytes == 3) ≡ false = ground arith in
      let c : (decode32 bytes == action) ≡ false = ground arith in
      if_cases (λ (h : Heard). h ≡ go_on)
        (ltb (length bytes) 8 || not (decode32 (drop 4 bytes) == decode32 (drop 12 request)))
        (λ _. refl) (λ _. rw (b, c) refl)
